-- ===== src/Capacity/Sleep/Attempts.antt =====
-- The attempts to wake a sleeping session.
use plecture.Base.{
  String, ℕ, suc, ◌+◌, ◌<◌, ◌≡◌, ap, subst, ◌∙◌, sym, Bool, true, false, not, ◌&&◌, List, [], ◌∷◌,
  arith, if◌then◌else◌, ltb, leb, eqb, ◌==◌, length, Bool-cases, inl, inr, ==-refl,
}
use plecture.Events.Log.{Row}
use plecture.Capacity.{Session, session_finalized}
use plecture.Capacity.Sleep.{
  sleep_queued, wake_failure_count, wake_suspension, queued_for_wake, append_sleep, append_wake,
  queue_sleep, UpAnswer, wake_turn,
}
use plecture.Capacity.Sleep.Effects.{
  append_sleep-AfterSleep, append_wake-failed, append_wake-suspended,
}

-- A session that waits: down, asleep, not finalized.
abbrev pub is_waiting : Session → Bool
is_waiting s = s.is_down && not (eqb s.sleep_since 0) && not (session_finalized s)

abbrev pub min : ℕ → ℕ → ℕ
min a b = if ltb a b then a else b

module _ (name : String) (limit : ℕ) (exhausted : String → String) (stamps : ℕ → ℕ → String × ℕ)
    (s : Session) where
  -- The log after turns of the session that all fail, the latest first.
  pub turns : List String → List Row → List Row
  turns [] rows = rows
  turns (error ∷ past) rows =
      wake_turn name limit exhausted (stamps (length past)) s (UpAnswer.failed error)
        (turns past rows)

  -- How the session stands after `n` turns.
  record Stands (n : ℕ) (rows : List Row) : Type 0 where
    asleep : sleep_queued rows ≡ true
    counted : wake_failure_count rows ≡ min n limit
    open_yet : (wake_suspension rows == "") ≡ ltb n limit

  Stands-queued :
      (n : ℕ) (rows : List Row)
      → is_waiting s ≡ true
      → Stands n rows
      → queued_for_wake limit s rows ≡ ltb n limit
  unfolding queued_for_wake
  Stands-queued n rows w t = ground (arith, t.asleep, t.counted, t.open_yet, w)

  turn-Stands :
      (n : ℕ) (error : String) (rows : List Row)
      → is_waiting s ≡ true
      → (exhausted error == "") ≡ false
      → Stands n rows
      → Stands (suc n) (wake_turn name limit exhausted (stamps n) s (UpAnswer.failed error) rows)
  unfolding wake_turn
  turn-Stands n error rows w x t =
      let queued = Stands-queued n rows w t in
      let noted = append_wake name (stamps n 0) "failed" error rows in
      let fail = append_wake-failed name (stamps n 0) rows error in
      let stop = append_wake-suspended name (stamps n 1) noted (exhausted error) in
      elim (Bool-cases (ltb n limit)) [
        | inr e ↦
            rw (queued, e)
              (record {
                asleep = t.asleep;
                counted = ground (arith, t.counted, e);
                open_yet = ground (arith, t.open_yet, e);
              })
        | inl e ↦ elim (Bool-cases (leb limit (wake_failure_count rows + 1))) [
          | inl f ↦
              rw (queued, e, f)
                (record {
                  asleep = stop.queued ∙ (fail.queued ∙ t.asleep);
                  counted = ground (arith, stop.failures, fail.failures, t.counted, e, f);
                  open_yet = ground (arith, ap (λ q. q == "") stop.suspension, x, t.counted, e, f);
                })
          | inr f ↦
              rw (queued, e, f)
                (record {
                  asleep = fail.queued ∙ t.asleep;
                  counted = ground (arith, fail.failures, t.counted, e, f);
                  open_yet =
                      ground
                        (arith, ap (λ q. q == "") fail.suspension, t.open_yet, t.counted, e, f);
                })
        ]
      ]

  turns-Stands :
      (errors : List String) (rows : List Row)
      → is_waiting s ≡ true
      → ((error : String) → (exhausted error == "") ≡ false)
      → Stands 0 rows
      → Stands (length errors) (turns errors rows)
  unfolding turns
  turns-Stands [] rows w x t = t
  turns-Stands (error ∷ past) rows w x t =
      turn-Stands (length past) error (turns past rows) w (x error) (turns-Stands past rows w x t)

asleep-is_waiting :
    (s : Session) (at : ℕ)
    → session_finalized s ≡ false
    → 0 < at
    → is_waiting (record s { is_down = true; sleep_since = at }) ≡ true
unfolding session_finalized
asleep-is_waiting s at f h = ground (arith, f, h)

-- A session that is queued to sleep, for another reason than idleness, is tried exactly as often as the limit says while every
-- attempt fails: it is queued while fewer attempts have failed than that, the log counts them, and after the last one it is not
-- tried again. The limit is positive, the session is not finalized, and the text of a suspension is not empty.
pub queue_sleep-turns :
    (name : String) (limit : ℕ) (exhausted : String → String) (stamps : ℕ → ℕ → String × ℕ)
    (stamp : String × ℕ) (reason : String) (at : ℕ) (s : Session) (rows : List Row)
    → 0 < limit
    → 0 < at
    → session_finalized s ≡ false
    → (reason == "idle") ≡ false
    → ((error : String) → (exhausted error == "") ≡ false)
    → (queue_sleep name stamp reason at false s rows).1 ≡ true
    → (errors : List String)
    → let (s', slept) = (queue_sleep name stamp reason at false s rows).0 in
      let log = turns name limit exhausted stamps s' errors slept in
      (queued_for_wake limit s' log ≡ ltb (length errors) limit)
      × (wake_failure_count log ≡ min (length errors) limit)
unfolding queue_sleep
queue_sleep-turns name limit exhausted stamps stamp reason at s rows l a f r x q errors =
    let s' : Session = record s { is_down = true; sleep_since = at } in
    let slept = append_sleep name stamp reason rows in
    let fresh = append_sleep-AfterSleep name stamp rows reason in
    let waiting = asleep-is_waiting s at f a in
    let start : Stands name limit exhausted stamps s' 0 slept = record {
      asleep = ground (arith, fresh.queued, r);
      counted = ground (arith, fresh.failures, l);
      open_yet = ap (λ t. t == "") fresh.suspension ∙ ground (arith, l, ==-refl "");
    } in
    let stands = turns-Stands name limit exhausted stamps s' errors slept waiting x start in
    let anew : (queue_sleep name stamp reason at false s rows).0 ≡ (s', slept) =
      ground (arith, q) in
    subst
      (λ p.
        (queued_for_wake limit p.0 (turns name limit exhausted stamps p.0 errors p.1)
          ≡ ltb (length errors) limit)
        × (wake_failure_count (turns name limit exhausted stamps p.0 errors p.1)
            ≡ min (length errors) limit))
      (sym anew)
      (
        Stands-queued name limit exhausted stamps s' (length errors)
            (turns name limit exhausted stamps s' errors slept) waiting stands,
        stands.counted,
      )
