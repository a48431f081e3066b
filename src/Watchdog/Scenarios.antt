-- ===== src/Watchdog/Scenarios.antt =====
-- A session with an agent that answers but is silent.
use plecture.Base.{String, ◌≡◌, refl, true, false, List, [], ◌∷◌, some}
use plecture.Watchdog.{
  HealthState, Alive, Activity, Found, Remembered, evaluate_health_for,
  finalize_activity_observation, state,
}
use plecture.Watchdog.Prints.{prints}
use plecture.Watchdog.Verdict.{facts, verdict, whole, last_activity, evaluate_health_for-verdict}

abbrev nodes : List (String × Found)
nodes =
    (
      "agent",
      Found.produced (
          record {
            label = "agent";
            alive = some Alive.passed;
            activity = some (Activity.signal false "f");
          }
          ∷ []),
    )
    ∷ ("old", Found.cleaned)
    ∷ []

abbrev remembered : Remembered
remembered = record {
  last_activity_at = 100;
  last_fingerprint = "agent:f";
  last_state = HealthState.healthy;
  last_notified_at = 0;
  notify_count = 0;
}

abbrev first_of : List String → String
first_of [] = ""
first_of (x ∷ xs) = x

-- The activity has not changed since 100, which is a stall at 500.
stalled_agent :
    state (
      finalize_activity_observation
        (some remembered)
        300
        500
        (evaluate_health_for first_of true true true nodes))
    ≡ HealthState.stalled
unfolding state finalize_activity_observation evaluate_health_for
stalled_agent = refl

evaluate_health_for-verdict_example :
    let report =
      finalize_activity_observation
        (some remembered)
        300
        500
        (evaluate_health_for first_of true true true nodes) in
    let f = facts true true nodes in
    let at = last_activity f (whole first_of (prints true nodes)) (some remembered) 500 in
    (report.last_activity_at ≡ at) × (state report ≡ verdict f true at 300 500)
evaluate_health_for-verdict_example =
    evaluate_health_for-verdict first_of true true true nodes (some remembered) 300 500
