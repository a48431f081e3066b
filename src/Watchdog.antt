-- ===== src/Watchdog.antt =====
-- The watchdog of a session's health (app/internal/service/watchdog.go): the probes of the nodes that are
-- planned now, the verdict, and when it is notified. A reason is `none` where the source has "". Probes
-- are run outside; what they answer is in the checks.
pub mod Facts
pub mod Prints
pub mod Verdict
pub mod Scenarios
use plecture.Base.{
  String, ℕ, ◌+◌, ◌-◌, ◌*◌, Bool, true, false, not, ◌&&◌, ◌||◌, List, [], ◌∷◌, ◌++◌, Option, none,
  some, if◌then◌else◌, ltb, leb, eqb, ◌==◌, is_none, is_some,
}
use plecture.Events.Patterns.{◌⧺◌}

pub data HealthState : Type 0 where
  undeclared unhealthy healthy stalled : HealthState

-- What an alive probe answers: it passes, it is observed to fail, or it cannot be decided.
pub data Alive : Type 0 where
  passed : Alive
  exited : String → Alive
  undecided : String → Alive

-- What an activity probe answers: it fails, it has no basis, or a signal: whether silence is expected, and the
-- fingerprint.
pub data Activity : Type 0 where
  broken : Activity
  no_basis : Activity
  signal : Bool → String → Activity

-- A target of probes.
pub record Target : Type 0 where
  pub label : String
  pub alive : Option Alive
  pub activity : Option Activity

-- What is found of a planned node: it is missing, torn down, failed with an error, in another state; produced, but it cannot be composed
-- (with an error, and whether it declares an alive probe); or produced with its targets.
pub data Found : Type 0 where
  missing : Found
  cleaned : Found
  failed : String → Found
  other : Found
  uncomposed : String → Bool → Found
  produced : List Target → Found

-- The variables of `evaluateHealthFor`.
pub record Walk : Type 0 where
  pub declared : Bool
  pub activity_due : Bool
  pub activity_declared : Bool
  pub fingerprints : List String
  pub probe_errors : List String
  pub failure : Option String
  pub repairable : Bool
  pub unevaluable : Option String

-- `if failureReason == "" { failureReason = ...; repairable = true }`, and likewise for the other.
abbrev pub fail_with : String → Walk → Walk
fail_with reason w = elim w.failure [
  | none ↦ record w { failure = some reason; repairable = true }
  | some r ↦ w
]

abbrev pub undecide_with : String → Walk → Walk
undecide_with reason w = elim w.unevaluable [
  | none ↦ record w { unevaluable = some reason }
  | some r ↦ w
]

abbrev pub reason_of : String → String → String
reason_of who what = who ⧺ (": " ⧺ what)

unfoldable pub see_alive : String → Option Alive → Walk → Walk
see_alive label none w = w
see_alive label (some Alive.passed) w = record w { declared = true }
see_alive label (some (Alive.exited e)) w =
    fail_with (reason_of label e) (record w { declared = true })
see_alive label (some (Alive.undecided e)) w =
    undecide_with (reason_of label e) (record w { declared = true })

unfoldable pub see_activity : String → Option Activity → Walk → Walk
see_activity label none w = w
see_activity label (some Activity.broken) w = record w {
  probe_errors = w.probe_errors ++ label ∷ [];
}
see_activity label (some Activity.no_basis) w = w
see_activity label (some (Activity.signal silence fingerprint)) w = record w {
  activity_declared = true;
  activity_due = if silence then false else w.activity_due;
  fingerprints = w.fingerprints ++ (label ⧺ (":" ⧺ fingerprint)) ∷ [];
}

unfoldable pub see_targets : List Target → Walk → Walk
unfolding see_alive see_activity
see_targets [] w = w
see_targets (t ∷ ts) w =
    see_targets ts (see_activity t.label t.activity (see_alive t.label t.alive w))

-- One planned node; `observing` is `repairObservationEnabled`.
unfoldable pub see_node : Bool → String → Found → Walk → Walk
unfolding see_targets
see_node observing id Found.missing w = fail_with (reason_of id "missing from the current plan") w
see_node observing id Found.cleaned w = w
see_node observing id (Found.failed e) w =
    fail_with (reason_of id (if e == "" then "setup failed" else e)) w
see_node observing id Found.other w = w
see_node observing id (Found.uncomposed e has_alive) w =
    let noted = record w { probe_errors = w.probe_errors ++ id ∷ [] } in
    if observing && has_alive then undecide_with (reason_of id e) noted else noted
see_node observing id (Found.produced targets) w = see_targets targets w

unfoldable pub see_nodes : Bool → List (String × Found) → Walk → Walk
unfolding see_node
see_nodes observing [] w = w
see_nodes observing ((id, found) ∷ nodes) w =
    see_nodes observing nodes (see_node observing id found w)

abbrev pub start_walk : Bool → Walk
start_walk due = record {
  declared = false;
  activity_due = due;
  activity_declared = false;
  fingerprints = [];
  probe_errors = [];
  failure = none;
  repairable = false;
  unevaluable = none;
}

-- `HealthReport`; times are 0 where they are zero.
pub record HealthReport : Type 0 where
  pub healthy : Bool
  pub declared : Bool
  pub activity_due : Bool
  pub activity_declared : Bool
  pub activity_fresh : Bool
  pub reason : Option String
  pub repairable : Bool
  pub probe_unevaluable : Bool
  pub last_activity_at : ℕ
  pub fingerprint : String

-- `evaluateHealthFor`: `due` is `sessionOwesProgress`, `joined` sorts and joins the fingerprints.
unfoldable pub evaluate_health_for :
    (List String → String) → Bool → Bool → Bool → List (String × Found) → HealthReport
unfolding see_nodes
evaluate_health_for joined gate_open observing due nodes =
    let w = if gate_open then see_nodes observing nodes (start_walk due) else start_walk due in
    record {
      healthy = is_none w.failure && is_none w.unevaluable;
      declared = w.declared || is_some w.failure || is_some w.unevaluable;
      activity_due = w.activity_due;
      activity_declared = w.activity_declared;
      activity_fresh = false;
      reason = elim w.unevaluable [ none ↦ w.failure | some r ↦ some r ];
      repairable = w.repairable && is_none w.unevaluable;
      probe_unevaluable = is_some w.unevaluable;
      last_activity_at = 0;
      fingerprint = elim w.fingerprints [ [] ↦ "" | f ∷ fs ↦ joined (f ∷ fs) ];
    }

-- The part of `contract.HealthState` that is read again.
pub record Remembered : Type 0 where
  pub last_activity_at : ℕ
  pub last_fingerprint : String
  pub last_state : HealthState
  pub last_notified_at : ℕ
  pub notify_count : ℕ

-- `finalizeActivityObservation`, where nothing is remembered of a session as `none`.
unfoldable pub finalize_activity_observation :
    Option Remembered → ℕ → ℕ → HealthReport → HealthReport
finalize_activity_observation prev threshold now r =
    let before : ℕ = elim prev [ none ↦ 0 | some p ↦ p.last_activity_at ] in
    let last : String = elim prev [ none ↦ "" | some p ↦ p.last_fingerprint ] in
    let at =
      if r.activity_declared && not (r.fingerprint == "") && not (r.fingerprint == last)
      then now
      else before in
    record r {
      last_activity_at = at;
      activity_fresh =
          if not r.activity_due || (not r.activity_declared && eqb at 0)
          then true
          else not (eqb at 0) && leb (now - at) threshold;
    }

-- `HealthReport.State`.
unfoldable pub state : HealthReport → HealthState
state r =
    let ever = not (eqb r.last_activity_at 0) in
    if not r.declared && not r.activity_declared && not ever
    then HealthState.undeclared
    else if not r.healthy
    then HealthState.unhealthy
    else if not r.activity_due
    then HealthState.healthy
    else if not r.activity_declared && not ever
    then HealthState.undeclared
    else if r.activity_fresh
    then HealthState.healthy
    else HealthState.stalled

abbrev pub same_state : HealthState → HealthState → Bool
same_state HealthState.undeclared HealthState.undeclared = true
same_state HealthState.unhealthy HealthState.unhealthy = true
same_state HealthState.healthy HealthState.healthy = true
same_state HealthState.stalled HealthState.stalled = true
same_state _ _ = false

-- `shouldNotifyHealth`; `every` and `period` are the configured ones or their defaults, both positive.
unfoldable pub should_notify_health : Option Remembered → HealthState → ℕ → ℕ → ℕ → Bool × ℕ
should_notify_health none now_state now every period = (true, 1)
should_notify_health (some p) now_state now every period =
    if not (same_state p.last_state now_state)
    then (true, p.notify_count + 1)
    else if eqb p.last_notified_at 0
    then (true, p.notify_count + 1)
    else if leb (every * period) (now - p.last_notified_at)
    then (true, p.notify_count + 1)
    else (false, p.notify_count)
