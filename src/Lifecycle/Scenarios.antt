-- ===== src/Lifecycle/Scenarios.antt =====
-- A chain of three nodes, set up again after one of them has died, and cleaned up.
use plecture.Base.{
  String, ◌≡◌, refl, true, false, List, [], ◌∷◌, Option, none, some, inr, ◌==◌, if◌then◌else◌,
  lookup, filter, contains, All, Distinct,
}
use plecture.Task.Node.{run, Resolved, Plan, ids}
use plecture.Task.Plan.{compiled, compile_workflow, up_order}
use plecture.Lifecycle.Setup.Compiled.{compile_workflow-produced}
use plecture.Lifecycle.Record.{
  produced, Runner, State, alive_failed, started, cleaned_up, cleanup_failed, set_up, alive,
  TaskState,
}
use plecture.Lifecycle.Dependents.{transitive_dependents}
use plecture.Lifecycle.Dependents.Closure.{IsClosure, transitive_dependents-IsClosure}
use plecture.Lifecycle.Cleanup.{run_cleanup}
use plecture.Lifecycle.Cleanup.Release.{Released, is_held, run_cleanup-Released}
use plecture.Lifecycle.Setup.{run_setup}
use plecture.Lifecycle.Setup.Complete.{run_setup-produced}

abbrev node : String → List String → Resolved
node id deps = record {
  node_id = id;
  task_id = id;
  scope = run;
  terminal = false;
  setup = true;
  cleanup = true;
  reads = [];
  depends_on = deps;
  layers = [];
  unresolved = false;
}

abbrev chain : List Resolved
chain = node "a" [] ∷ node "b" ("a" ∷ []) ∷ node "c" ("b" ∷ []) ∷ []

abbrev record_of : TaskState
record_of = record {
  scope = run;
  task_id = "";
  status = produced;
  inputs = "";
  outputs = "{}";
  process = "";
  layers = [];
  depends_on = [];
  execution_id = "x";
  new_execution = false;
  seq = 1;
  resource = "";
  error = "";
  setup_at = 1;
  failed_at = 0;
  cleaned_at = 0;
}

-- The node "b" has died, and the cleanup of "c" fails where `stuck` says so.
abbrev runner : Option String → Runner
runner stuck = record {
  now = 9;
  alive = λ r st. if r.node_id == "b" then some "gone" else none;
  resolve_inputs = λ r ts. inr "{}";
  validate_inputs = λ r i. none;
  run_layers = λ r ts i. ([], none);
  project_outputs = λ r ls. inr "{}";
  capture_nested = λ r ls. inr "";
  run_setup = λ r ts prev i. inr "{}";
  validate_outputs = λ r o. none;
  capture_process = λ r o. inr "";
  cleanup_layers = λ r st ts. ([], none);
  run_cleanup = λ r st ts. if r.node_id == "c" then stuck else none;
  on_release = none;
}

abbrev up : State
up = record { tasks = ("a", record_of) ∷ ("b", record_of) ∷ ("c", record_of) ∷ []; reports = [] }

rebuilt :
    (run_setup (runner none) chain up).0.reports
    ≡ alive "a"
      ∷ alive_failed "b"
      ∷ started "c"
      ∷ cleaned_up "c"
      ∷ started "b"
      ∷ cleaned_up "b"
      ∷ started "b"
      ∷ set_up "b"
      ∷ started "c"
      ∷ set_up "c"
      ∷ []
unfolding run_setup
rebuilt = refl

rebuilt_ok : (run_setup (runner none) chain up).1 ≡ none
unfolding run_setup
rebuilt_ok = refl

chain-Distinct : Distinct (ids chain)
chain-Distinct = (refl, (refl, (refl, tt)))

run_setup-produced_example :
    All (λ r. is_held (lookup r.node_id (run_setup (runner none) chain up).0.tasks) ≡ true) chain
run_setup-produced_example =
    run_setup-produced (runner none) chain chain-Distinct up
      (tt, ((λ h. refl, tt), ((λ h. refl, tt), tt))) rebuilt_ok

-- The failed cleanup of "c" does not stop that of "b" and "a".
torn_down :
    (run_cleanup (runner (some "busy")) chain up).0.reports
    ≡ started "c"
      ∷ cleanup_failed "c"
      ∷ started "b"
      ∷ cleaned_up "b"
      ∷ started "a"
      ∷ cleaned_up "a"
      ∷ []
unfolding run_cleanup
torn_down = refl

run_cleanup-Released_example :
    Released
      (runner (some "busy"))
      chain
      up
      (run_cleanup (runner (some "busy")) chain up).0.tasks
      (run_cleanup (runner (some "busy")) chain up).1
run_cleanup-Released_example = run_cleanup-Released (runner (some "busy")) chain up chain-Distinct

transitive_dependents-IsClosure_example :
    (seen : List String) × IsClosure chain "b" seen
    × (transitive_dependents "b" chain ≡ some (filter (λ r. contains seen r.node_id) chain))
transitive_dependents-IsClosure_example = transitive_dependents-IsClosure chain "b"

abbrev chain_plan : Plan
chain_plan = record { session_nodes = []; run_nodes = chain }

chain_compiles : compile_workflow chain ([] ∷ [] ∷ [] ∷ []) ≡ compiled chain_plan
unfolding compile_workflow
chain_compiles = refl

chain_set_up : (run_setup (runner none) (up_order chain_plan) up).1 ≡ none
unfolding run_setup up_order
chain_set_up = refl

compile_workflow-produced_example :
    All
      (λ r.
        is_held (lookup r.node_id (run_setup (runner none) (up_order chain_plan) up).0.tasks)
        ≡ true)
      (up_order chain_plan)
compile_workflow-produced_example =
    compile_workflow-produced chain ([] ∷ [] ∷ [] ∷ []) chain_plan (runner none) up chain_compiles
      chain_set_up
