-- ===== src/Dispatch/Deliver/Loops.antt =====
-- Failures do not feed on themselves.
use mathlib.Core.List.{append_assoc}
use plecture.Base.{
  ℕ, ◌+◌, ◌≡◌, refl, ap, sym, zero, suc, ◌∙◌, true, false, List, [], ◌∷◌, ◌++◌, inl, inr, arith,
  All, All-append, All-map, append_nil, ==_of_eq, Bool-cases, List-cases,
}
use plecture.Events.{Event, meta}
use plecture.Events.Log.{Row, append_event}
use plecture.Dispatch.Deliver.{
  DeliveryFailure, Env, Desk, type_channel_error, work_all, should_hold, already, settle,
  record_failure, record_failures, channel_error_event, process_event, is_error_of_error,
}

-- An event written for a failure to deliver `ev`.
abbrev pub IsAbout : Event → Row → Type 0
IsAbout ev r = (r.event.typ ≡ type_channel_error) × (meta "event_type" r.event.metadata ≡ ev.typ)

-- The rows `later` are the rows `start` and new ones with a property.
abbrev pub Grown : (Row → Type 0) → List Row → List Row → Type 0
Grown Good start later = (new : List Row) × ((later ≡ start ++ new) × All Good new)

Grown-same : (Good : Row → Type 0) (rows : List Row) → Grown Good rows rows
Grown-same Good rows = ([], (sym (append_nil rows), tt))

Grown-twice :
    (Good : Row → Type 0) (a b c : List Row) → Grown Good a b → Grown Good b c → Grown Good a c
Grown-twice Good a b c (new, (e, g)) (more, (f, h)) = (
  new ++ more,
  (f ∙ (ap (λ l. l ++ more) e ∙ append_assoc a new more), All-append Good new more g h),
)

module _ (env : Env) (ev : Event) where
  record_failure-Grown :
      (n : ℕ) (f : DeliveryFailure) (rows : List Row)
      → Grown (IsAbout ev) rows (record_failure env ev n f rows)
  unfolding record_failure channel_error_event append_event meta
  record_failure-Grown n f rows = elim (Bool-cases (env.stopped_at ev n)) [
    | inl e ↦ rw e (Grown-same (IsAbout ev) rows)
    | inr e ↦ elim (Bool-cases (env.append_lost ev n)) [
      | inl k ↦ rw (e, k) (Grown-same (IsAbout ev) rows)
      | inr k ↦ rw (e, k) (_, (refl, ((refl, refl), tt)))
    ]
  ]

  record_failures-Grown :
      (n : ℕ) (fs : List DeliveryFailure) (rows : List Row)
      → Grown (IsAbout ev) rows (record_failures env ev n fs rows)
  unfolding record_failures
  record_failures-Grown n [] rows = Grown-same (IsAbout ev) rows
  record_failures-Grown n (f ∷ fs) rows =
      Grown-twice (IsAbout ev) rows (record_failure env ev n f rows)
        (record_failures env ev n (f ∷ fs) rows) (record_failure-Grown n f rows)
        (record_failures-Grown (n + 1) fs (record_failure env ev n f rows))

  -- An event adds nothing to the log but errors that carry its own type.
  process_event-Grown :
      (desk : Desk) → Grown (IsAbout ev) desk.rows (process_event env ev desk).0.rows
  unfolding process_event settle
  process_event-Grown desk =
      let w = work_all env ev (already desk.held ev) env.channels in
      elim (Bool-cases (is_error_of_error ev)) [
        | inl e ↦ rw e (Grown-same (IsAbout ev) desk.rows)
        | inr e ↦ elim (Bool-cases (env.stopped ev)) [
          | inl q ↦ rw (e, q) (Grown-same (IsAbout ev) desk.rows)
          | inr q ↦ elim (List-cases w.failures) [
            | inl n ↦ rw (e, q, n) (Grown-same (IsAbout ev) desk.rows)
            | inr (f, (fs, n)) ↦ elim (Bool-cases (should_hold env ev (f ∷ fs))) [
              | inl h ↦ rw (e, q, n, h) (Grown-same (IsAbout ev) desk.rows)
              | inr h ↦ rw (e, q, n, h) (record_failures-Grown 0 (f ∷ fs) desk.rows)
            ]
          ]
        ]
      ]

-- What an event of the log leads to: `depth` more rounds of errors at most.
pub Quiets : ℕ → Event → Type 0
Quiets zero ev = (env : Env) (desk : Desk) → process_event env ev desk ≡ (desk, false)
Quiets (suc depth) ev =
    (env : Env) (desk : Desk)
    → Grown (λ r. Quiets depth r.event) desk.rows (process_event env ev desk).0.rows

quiet :
    (ev : Event)
    → is_error_of_error ev ≡ true
    → (env : Env) (desk : Desk) → process_event env ev desk ≡ (desk, false)
unfolding process_event
quiet ev h env desk = ground (arith, h)

Grown-map :
    (P Q : Row → Type 0) (f : (r : Row) → P r → Q r) (a b : List Row) → Grown P a b → Grown Q a b
Grown-map P Q f a b (new, (e, g)) = (new, (e, All-map f new g))

quiet_last :
    (ev : Event) (q : Row)
    → ev.typ ≡ type_channel_error
    → IsAbout ev q
    → is_error_of_error q.event ≡ true
quiet_last ev q e about = ground (
  arith,
  ==_of_eq q.event.typ type_channel_error about.0,
  ==_of_eq (meta "event_type" q.event.metadata) type_channel_error (about.1 ∙ e),
)

-- An event can lead to errors, and those to errors about errors, which go to no channel and are the
-- end: dispatchers with any channels, and whatever fails, do not loop on their failures.
pub process_event-Quiets : (ev : Event) → Quiets 2 ev
unfolding Quiets
process_event-Quiets ev env desk =
    Grown-map (IsAbout ev) (λ r. Quiets 1 r.event) first desk.rows
      (process_event env ev desk).0.rows (process_event-Grown env ev desk)
  where
    first : (r : Row) → IsAbout ev r → Quiets 1 r.event
    first r about env' desk' =
        Grown-map (IsAbout r.event) (λ q. Quiets 0 q.event)
          (λ q later. quiet q.event (quiet_last r.event q about.0 later)) desk'.rows
          (process_event env' r.event desk').0.rows (process_event-Grown env' r.event desk')
