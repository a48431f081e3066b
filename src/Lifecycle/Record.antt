-- ===== src/Lifecycle/Record.antt =====
-- The record of a node (`TaskState` of contracts/state/state.go), the reports to the observer, and
-- the effects that the runner calls.
use plecture.Base.{
  String, ℕ, suc, Bool, true, false, ◌||◌, not, List, [], ◌∷◌, ◌++◌, Option, ◌⊎◌, if◌then◌else◌,
  ◌==◌, ltb,
}
use plecture.Task.Node.{Scope, scope_eq, Resolved}

pub data Status : Type 0 where
  produced failed cleaned : Status

-- `LayerState`: the effect's id, and the rest of the record as its JSON text.
pub record Layer : Type 0 where
  pub effect_id : String
  pub content : String

-- Inputs, outputs and the process identity are JSON texts, "" for nil; times are nanoseconds, 0 for
-- the zero time.
pub record TaskState : Type 0 where
  pub scope : Scope
  pub task_id : String
  pub status : Status
  pub inputs : String
  pub outputs : String
  pub process : String
  pub layers : List Layer
  pub depends_on : List String
  pub execution_id : String
  pub new_execution : Bool
  pub seq : ℕ
  pub resource : String
  pub error : String
  pub setup_at : ℕ
  pub failed_at : ℕ
  pub cleaned_at : ℕ

-- `map[string]*TaskState`.
abbrev pub Tasks : Type 0
Tasks = List (String × TaskState)

-- What the observer hears, in order; the results carry the node's id.
pub data Report : Type 0 where
  started skipped : String → Report
  set_up setup_failed alive alive_failed cleaned_up cleanup_failed : String → Report

abbrev pub is_cleaned : Status → Bool
is_cleaned produced = false
is_cleaned failed = false
is_cleaned cleaned = true

abbrev pub is_produced : Status → Bool
is_produced produced = true
is_produced failed = false
is_produced cleaned = false

-- `tasks[id] = st`.
unfoldable pub put : String → TaskState → Tasks → Tasks
put id st [] = (id, st) ∷ []
put id st ((k, s) ∷ ts) = if k == id then (k, st) ∷ ts else (k, s) ∷ put id st ts

pub highest_seq : Tasks → ℕ
highest_seq [] = 0
highest_seq ((k, s) ∷ ts) = let rest = highest_seq ts in if ltb rest s.seq then s.seq else rest

unfoldable pub next_seq : Tasks → ℕ
unfolding highest_seq
next_seq tasks = suc (highest_seq tasks)

abbrev pub task_id_for : Resolved → String
task_id_for r = if r.task_id == "" || r.task_id == r.node_id then "" else r.task_id

pub layers_differ : List String → List Layer → Bool
layers_differ [] [] = false
layers_differ [] (l ∷ ls) = true
layers_differ (e ∷ es) [] = true
layers_differ (e ∷ es) (l ∷ ls) = not (e == l.effect_id) || layers_differ es ls

unfoldable pub declaration_changed : Resolved → TaskState → Bool
unfolding layers_differ
declaration_changed r existing =
    not (scope_eq existing.scope r.scope)
    || not (existing.task_id == task_id_for r)
    || layers_differ r.layers existing.layers

-- What the runner calls: the input wiring and the schemas, the effects' commands and probes, the
-- nesting chain, and the observer's `OnRelease`, none if it has none. Each takes what the call
-- can read, and `inr` is the result of a call without an error. `alive` is `verifyLiveness`.
pub record Runner : Type 0 where
  pub now : ℕ
  pub alive : Resolved → TaskState → Option String
  pub resolve_inputs : Resolved → Tasks → String ⊎ String
  pub validate_inputs : Resolved → String → Option String
  pub run_layers : Resolved → Tasks → String → List Layer × Option String
  pub project_outputs : Resolved → List Layer → String ⊎ String
  pub capture_nested : Resolved → List Layer → String ⊎ String
  pub run_setup : Resolved → Tasks → String → String → String ⊎ String
  pub validate_outputs : Resolved → String → Option String
  pub capture_process : Resolved → String → String ⊎ String
  pub cleanup_layers : Resolved → TaskState → Tasks → List Layer × Option String
  pub run_cleanup : Resolved → TaskState → Tasks → Option String
  pub on_release : Option (Tasks → Option String)

pub record State : Type 0 where
  pub tasks : Tasks
  pub reports : List Report

abbrev pub report : Report → State → State
report r s = record s { reports = s.reports ++ r ∷ [] }

abbrev pub store : String → TaskState → State → State
store id st s = record s { tasks = put id st s.tasks }

-- The errors of a run, with the node and the message of the cause.
pub data RunError : Type 0 where
  different_declaration : String → RunError
  setup_error cleanup_error release_error liveness_cleanup_error : String → String → RunError
  no_definition : String → RunError
