-- ===== src/Watchdog/Verdict.antt =====
-- What the verdict says of the probes.
use plecture.Base.{
  String, ℕ, ◌-◌, ◌≡◌, Bool, not, ◌&&◌, ◌||◌, List, [], ◌∷◌, Option, none, some, arith,
  if◌then◌else◌, leb, eqb, ◌==◌, refl, ap, Bool-cases, inl, inr,
}
use plecture.Watchdog.{
  HealthState, Found, Walk, Remembered, see_nodes, start_walk, evaluate_health_for,
  finalize_activity_observation, state,
}
use plecture.Watchdog.Facts.{Facts, Adds, of_nodes, nothing_found, Adds-nothing, see_nodes-Adds}
use plecture.Watchdog.Prints.{prints, see_nodes-prints}

-- What is found, where the gate is open.
abbrev pub facts : Bool → Bool → List (String × Found) → Facts
facts gate_open observing nodes = if gate_open then of_nodes observing nodes else nothing_found

-- The fingerprint of a session: "" without signals.
abbrev pub whole : (List String → String) → List String → String
whole joined [] = ""
whole joined (p ∷ ps) = joined (p ∷ ps)

-- The time of the last activity, 0 for none: a signal with a fingerprint that is not empty and not the remembered one is
-- activity now, and otherwise it is the remembered time.
abbrev pub last_activity : Facts → String → Option Remembered → ℕ → ℕ
last_activity f fingerprint prev now =
    let before : ℕ = elim prev [ none ↦ 0 | some p ↦ p.last_activity_at ] in
    let known : String = elim prev [ none ↦ "" | some p ↦ p.last_fingerprint ] in
    if f.signalled && not (fingerprint == "") && not (fingerprint == known) then now else before

-- The verdict, from what is found, whether progress is owed, when there was activity last, and the threshold.
abbrev pub verdict : Facts → Bool → ℕ → ℕ → ℕ → HealthState
verdict f due at threshold now =
    if f.fails || f.is_open
    then HealthState.unhealthy
    else if not f.declares && not f.signalled && eqb at 0
    then HealthState.undeclared
    else if not due || f.silent
    then HealthState.healthy
    else if not f.signalled && eqb at 0
    then HealthState.undeclared
    else if not (eqb at 0) && leb (now - at) threshold
    then HealthState.healthy
    else HealthState.stalled

module _ (joined : List String → String) (gate_open observing due : Bool)
    (nodes : List (String × Found)) where
  walked : Walk
  walked = if gate_open then see_nodes observing nodes (start_walk due) else start_walk due

  walked-Adds : Adds (start_walk due) walked (facts gate_open observing nodes)
  unfolding walked
  walked-Adds = elim (Bool-cases gate_open) [
    | inl h ↦ rw h (see_nodes-Adds observing nodes (start_walk due))
    | inr h ↦ rw h (Adds-nothing (start_walk due))
  ]

  walked-prints : walked.fingerprints ≡ prints gate_open nodes
  unfolding walked
  walked-prints = elim (Bool-cases gate_open) [
    | inl h ↦ rw h (see_nodes-prints observing nodes (start_walk due))
    | inr h ↦ rw h refl
  ]

  -- The state that `evaluateHealthFor` and `finalizeActivityObservation` report. It is unhealthy exactly if the gate is open and
  -- some planned node is missing or failed, or has an alive probe that fails or cannot be decided, or, where repair
  -- observes, cannot be composed and has such a probe; this does not depend on the order of nodes. Otherwise it is
  -- undeclared if no probe says anything and no activity was ever seen; else healthy if no work is owed or a probe
  -- expects silence; else undeclared without a signal and without earlier activity; else healthy if the time of the
  -- last activity is known and within the threshold, and stalled if not. That time, which the report carries, is now
  -- where the fingerprints of the nodes' signals, joined, are not empty and differ from the remembered ones, and otherwise the
  -- remembered one.
  pub evaluate_health_for-verdict :
      (prev : Option Remembered) (threshold now : ℕ)
      → let report =
          finalize_activity_observation prev threshold now
            (evaluate_health_for joined gate_open observing due nodes) in
        let f = facts gate_open observing nodes in
        let at = last_activity f (whole joined (prints gate_open nodes)) prev now in
        (report.last_activity_at ≡ at) × (state report ≡ verdict f due at threshold now)
  unfolding evaluate_health_for finalize_activity_observation state walked
  evaluate_health_for-verdict prev threshold now =
      let report = evaluate_health_for joined gate_open observing due nodes in
      let a = walked-Adds in
      let print : report.fingerprint ≡ whole joined (prints gate_open nodes) =
        ap (whole joined) walked-prints in
      (
        ground (arith, a.activity, print),
        ground (arith, print, a.declared, a.failure, a.unevaluable, a.activity, a.due),
      )
