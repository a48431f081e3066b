-- ===== src/Dispatch/Deliver/Outcome.antt =====
-- What becomes of an event that a dispatcher is through with.
use plecture.Base.{
  String, ℕ, ◌+◌, ◌≡◌, refl, Bool, true, false, not, ◌&&◌, ◌||◌, List, [], ◌∷◌, ◌++◌, Option, none,
  some, inl, inr, arith, if◌then◌else◌, ◌==◌, any, all, is_none, ==_of_eq, contains, Bool-cases,
  Option-cases, List-cases, ==-refl,
}
use plecture.Events.{Event, meta}
use plecture.Events.Log.{Row, highest, append_event}
use plecture.Dispatch.Deliver.{
  Channel, DeliveryFailure, deliver_with_retry, Env, Desk, type_channel_error, wants, work,
  work_all, should_hold, already, settle, record_failure, record_failures, channel_error_event,
  process_event, is_error_of_error,
}

-- The row of an error about a channel and an event.
abbrev pub reports : String → Event → Row → Bool
reports name ev r =
    (r.event.typ == type_channel_error)
    && (meta "channel" r.event.metadata == name)
    && (meta "event_id" r.event.metadata == ev.id)

any-append : (p : Row → Bool) (xs ys : List Row) → any p (xs ++ ys) ≡ (any p xs || any p ys)
any-append p [] ys = refl
any-append p (x ∷ xs) ys = ground (arith, any-append p xs ys)

abbrev pub failed_at : String → List DeliveryFailure → Bool
failed_at name failures = any (λ f. f.channel == name) failures

abbrev with_failure : Option DeliveryFailure → List DeliveryFailure → List DeliveryFailure
with_failure none fs = fs
with_failure (some f) fs = f ∷ fs

module _ (env : Env) (ev : Event) where
  -- A channel that does not want the event, was delivered to before or is now, or failed.
  abbrev pub is_served : List String → List DeliveryFailure → Channel → Bool
  is_served delivered failures ch =
      not (wants env ev ch)
      || contains delivered ch.name
      || is_none (work env ch ev)
      || failed_at ch.name failures

  work-name : (ch : Channel) (f : DeliveryFailure) → work env ch ev ≡ some f → f.channel ≡ ch.name
  unfolding work
  work-name ch f e = elim (Option-cases (env.inputs ch ev)) [
    | inr (c, i) ↦ ground (arith, e, i)
    | inl i ↦ elim (Option-cases (deliver_with_retry env ch ev).1) [
      | inl o ↦ absurd (ground (arith, e, i, o))
      | inr (c, o) ↦ ground (arith, e, i, o)
    ]
  ]

  served-more :
      (delivered : List String) (f : DeliveryFailure) (fs : List DeliveryFailure)
      (chs : List Channel)
      → all (is_served delivered fs) chs ≡ true
      → all (is_served delivered (f ∷ fs)) chs ≡ true
  served-more delivered f fs [] h = refl
  served-more delivered f fs (ch ∷ chs) h = ground (arith, served-more delivered f fs chs)

  failures-cons :
      (delivered : List String) (ch : Channel) (rest : List Channel)
      → (work_all env ev delivered (ch ∷ rest)).failures ≡ (
          let later = (work_all env ev delivered rest).failures in
          if not (wants env ev ch) || contains delivered ch.name
          then later
          else with_failure (work env ch ev) later)
  unfolding work_all
  failures-cons delivered ch rest = elim (Option-cases (work env ch ev)) [
    | inl n ↦ ground (arith, n)
    | inr (f, n) ↦ ground (arith, n)
  ]

  work_all-served :
      (delivered : List String) (chs : List Channel)
      → all (is_served delivered (work_all env ev delivered chs).failures) chs ≡ true
  work_all-served delivered [] = refl
  work_all-served delivered (ch ∷ rest) =
      let fs = (work_all env ev delivered rest).failures in
      let ih = work_all-served delivered rest in
      let step = failures-cons delivered ch rest in
      elim (Option-cases (work env ch ev)) [
        | inl n ↦ ground (arith, n, step, ih)
        | inr (f, n) ↦ ground (
          arith,
          n,
          step,
          ih,
          served-more delivered f fs rest ih,
          ==_of_eq f.channel ch.name (work-name ch f n),
        )
      ]

-- No write of an error event is lost, and the context does not end while they are written.
abbrev pub IsRecording : Env → Event → Type 0
IsRecording env ev = (n : ℕ) → (env.stopped_at ev n ≡ false) × (env.append_lost ev n ≡ false)

module _ (env : Env) (ev : Event) (recording : IsRecording env ev) where
  record_failure-reports :
      (n : ℕ) (f : DeliveryFailure) (rows : List Row) (name : String)
      → any (reports name ev) (record_failure env ev n f rows)
        ≡ (any (reports name ev) rows || f.channel == name)
  unfolding record_failure channel_error_event append_event meta
  record_failure-reports n f rows name =
      let (going, kept) = recording n in
      let (id, time) = env.stamp ev n in
      let row : Row = record {
        seq = highest rows + 1;
        event = record (channel_error_event env ev f.channel f.attempts f.cause) {
          id = id;
          time = time;
        };
      } in
      ground (arith, going, kept, any-append (reports name ev) rows (row ∷ []), ==-refl ev.id)

  record_failures-reports :
      (n : ℕ) (fs : List DeliveryFailure) (rows : List Row) (name : String)
      → any (reports name ev) (record_failures env ev n fs rows)
        ≡ (any (reports name ev) rows || failed_at name fs)
  unfolding record_failures
  record_failures-reports n [] rows name = ground arith
  record_failures-reports n (f ∷ fs) rows name = ground (
    arith,
    record_failures-reports (n + 1) fs (record_failure env ev n f rows) name,
    record_failure-reports n f rows name,
  )

  abbrev pub is_settled : Desk → Desk → Channel → Bool
  is_settled before later ch =
      not (wants env ev ch)
      || contains (already before.held ev) ch.name
      || is_none (work env ch ev)
      || any (reports ch.name ev) later.rows

  settled_all :
      (before later : Desk) (fs : List DeliveryFailure) (chs : List Channel)
      → ((name : String) → (not (failed_at name fs) || any (reports name ev) later.rows) ≡ true)
      → all (is_served env ev (already before.held ev) fs) chs ≡ true
      → all (is_settled before later) chs ≡ true
  settled_all before later fs [] h s = refl
  settled_all before later fs (ch ∷ chs) h s =
      ground (arith, h ch.name, settled_all before later fs chs h)

  -- When a dispatcher is through with an event (it does not hold it, and the context has not ended), each channel that
  -- the event goes to was delivered to, now or when the event was held before, or an error
  -- event about the channel and the event is in the log; an error about an error goes to none. No write of an error event is
  -- assumed to be lost.
  pub process_event-settled :
      (desk : Desk)
      → env.stopped ev ≡ false
      → is_error_of_error ev ≡ false
      → (process_event env ev desk).1 ≡ false
      → all (is_settled desk (process_event env ev desk).0) env.channels ≡ true
  unfolding process_event settle
  process_event-settled desk going plain through =
      let w = work_all env ev (already desk.held ev) env.channels in
      let served = work_all-served env ev (already desk.held ev) env.channels in
      settled_all desk (process_event env ev desk).0 w.failures env.channels
        (λ name. elim (List-cases w.failures) [
          | inl none_failed ↦ ground (arith, none_failed)
          | inr (f, (fs, e)) ↦ elim (Bool-cases (should_hold env ev (f ∷ fs))) [
            | inl q ↦ absurd (ground (arith, going, plain, through, e, q))
            | inr q ↦
                ground
                  (arith, going, plain, e, q, record_failures-reports 0 (f ∷ fs) desk.rows name)
          ]
        ])
        served
