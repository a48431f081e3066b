-- ===== src/Lifecycle/Setup.antt =====
-- `RunSetup` of app/internal/task/task.go and `invalidateProducedNode` of
-- app/internal/task/liveness.go.
pub mod Complete
pub mod Compiled
use plecture.Base.{
  String, ℕ, Bool, true, false, not, ◌&&◌, List, [], ◌∷◌, ◌++◌, Option, none, some, ◌⊎◌, inl, inr,
  if◌then◌else◌, ◌==◌, lookup, filter, contains,
}
use plecture.Task.Node.{Resolved}
use plecture.Lifecycle.Record.{
  Status, produced, failed, cleaned, is_cleaned, is_produced, Layer, TaskState, Tasks, Report,
  started, set_up, setup_failed, alive, alive_failed, Runner, State, report, store, put, next_seq,
  task_id_for, declaration_changed, RunError, different_declaration, setup_error, release_error,
  liveness_cleanup_error,
}
use plecture.Lifecycle.Dependents.{transitive_dependents}
use plecture.Lifecycle.Cleanup.{run_cleanup}

-- The execution that an attempt continues: the outputs that survive, its id and its number.
pub record Prior : Type 0 where
  pub outputs : String
  pub execution_id : String
  pub seq : ℕ

abbrev pub prior : Option TaskState → Prior
prior none = record { outputs = ""; execution_id = ""; seq = 0 }
prior (some st) =
    if is_cleaned st.status
    then record { outputs = st.outputs; execution_id = ""; seq = 0 }
    else record { outputs = st.outputs; execution_id = st.execution_id; seq = st.seq }

-- `failedState`, with the number that the closure `failed` gives it.
unfoldable pub failed_state :
    ℕ → Resolved → Prior → Tasks → String → String → List Layer → TaskState
unfolding next_seq
failed_state now r p tasks message inputs layers = record {
  scope = r.scope;
  task_id = task_id_for r;
  status = failed;
  inputs = inputs;
  outputs = p.outputs;
  process = "";
  layers = layers;
  depends_on = r.depends_on;
  execution_id = p.execution_id;
  new_execution = p.execution_id == "";
  seq = if p.execution_id == "" then next_seq tasks else p.seq;
  resource = "";
  error = message;
  setup_at = 0;
  failed_at = now;
  cleaned_at = 0;
}

unfoldable pub produced_state :
    ℕ → Resolved → Prior → Tasks → String → String → String → List Layer → TaskState
unfolding next_seq
produced_state now r p tasks inputs outputs process layers = record {
  scope = r.scope;
  task_id = task_id_for r;
  status = produced;
  inputs = inputs;
  outputs = outputs;
  process = process;
  layers = layers;
  depends_on = r.depends_on;
  execution_id = p.execution_id;
  new_execution = p.execution_id == "";
  seq = next_seq tasks;
  resource = "";
  error = "";
  setup_at = now;
  failed_at = 0;
  cleaned_at = 0;
}

-- The result of one attempt: what failed, with the inputs and the layers to keep, or what was
-- produced.
pub data Attempt : Type 0 where
  attempt_failed : String → String → List Layer → Attempt
  attempt_produced : String → String → String → List Layer → Attempt

module _ (go : Runner) where
  -- The setup of a nesting chain.
  pub attempt_layers : Resolved → Tasks → String → Attempt
  attempt_layers r tasks inputs =
      let (layers, error) = go.run_layers r tasks inputs in
      elim error [
        | some e ↦ attempt_failed e inputs layers
        | none ↦ elim (go.project_outputs r layers) [
          | inl e ↦ attempt_failed e inputs layers
          | inr outputs ↦ elim (go.capture_nested r layers) [
            | inl e ↦ attempt_failed e inputs layers
            | inr process ↦ attempt_produced inputs outputs process layers
          ]
        ]
      ]

  -- The setup of a single effect; without a command, its outputs are empty.
  pub attempt_effect : Resolved → Tasks → String → String → Attempt
  attempt_effect r tasks prev inputs =
      elim (if r.setup then go.run_setup r tasks prev inputs else inr "{}") [
        | inl e ↦ attempt_failed e inputs []
        | inr outputs ↦ elim (go.validate_outputs r outputs) [
          | some e ↦ attempt_failed e inputs []
          | none ↦ elim (go.capture_process r outputs) [
            | inl e ↦ attempt_failed e inputs []
            | inr process ↦ attempt_produced inputs outputs process []
          ]
        ]
      ]

  pub attempt : Resolved → Tasks → String → Attempt
  unfolding attempt_layers attempt_effect
  attempt r tasks prev = elim (go.resolve_inputs r tasks) [
    | inl e ↦ attempt_failed e "" []
    | inr inputs ↦ elim (go.validate_inputs r inputs) [
      | some e ↦ attempt_failed e inputs []
      | none ↦ elim r.layers [
        | [] ↦ attempt_effect r tasks prev inputs
        | l ∷ ls ↦ attempt_layers r tasks inputs
      ]
    ]
  ]

  -- The part of a round from `OnStart` on.
  pub set_up_node : Resolved → State → State × Option RunError
  unfolding attempt failed_state produced_state put
  set_up_node r s =
      let p = prior (lookup r.node_id s.tasks) in
      let begun = report (started r.node_id) s in
      elim (attempt r s.tasks p.outputs) [
        | attempt_failed e inputs layers ↦ (
          report (setup_failed r.node_id)
              (store r.node_id (failed_state go.now r p s.tasks e inputs layers) begun),
          some (setup_error r.node_id e),
        )
        | attempt_produced inputs outputs process layers ↦ (
          report (set_up r.node_id) (
              store r.node_id (produced_state go.now r p s.tasks inputs outputs process layers)
                begun),
          none,
        )
      ]

  -- The records that `OnRelease` is given.
  pub released : List Resolved → Tasks → Tasks
  released [] tasks = []
  released (r ∷ rs) tasks =
      let rest = released rs tasks in
      elim (lookup r.node_id tasks) [
        | none ↦ rest
        | some st ↦ if is_cleaned st.status then (r.node_id, st) ∷ rest else rest
      ]

  abbrev notify_release : String → Tasks → Option RunError
  notify_release id [] = none
  notify_release id (t ∷ ts) = elim go.on_release [
    | none ↦ none
    | some hook ↦ elim (hook (t ∷ ts)) [ none ↦ none | some e ↦ some (release_error id e) ]
  ]

  abbrev cause : RunError → String
  cause (different_declaration id) = id
  cause (setup_error id e) = e
  cause (RunError.cleanup_error id e) = e
  cause (release_error id e) = e
  cause (liveness_cleanup_error id e) = e
  cause (RunError.no_definition id) = id

  -- `invalidateProducedNode`, given the nodes to clean.
  pub invalidate_nodes :
      Resolved → TaskState → List Resolved → String → State → State × Option RunError
  unfolding run_cleanup put released
  invalidate_nodes r existing to_clean alive_error s =
      let stamped =
        store r.node_id
          (record existing { status = failed; error = alive_error; failed_at = go.now }) s in
      let (s', error) = run_cleanup go to_clean stamped in
      elim error [
        | some e ↦ (s', some (liveness_cleanup_error r.node_id (cause e)))
        | none ↦ (s', notify_release r.node_id (released to_clean s'.tasks))
      ]

  -- A search that runs out of fuel would be an error of its own; it does not.
  pub invalidate_produced_node :
      Resolved → TaskState → List Resolved → String → State → State × Option RunError
  unfolding transitive_dependents invalidate_nodes
  invalidate_produced_node r existing ordered alive_error s =
      elim (transitive_dependents r.node_id ordered) [
        | none ↦ (s, some (liveness_cleanup_error r.node_id "out of fuel"))
        | some to_clean ↦ invalidate_nodes r existing to_clean alive_error s
      ]

  pub setup_node : List Resolved → Resolved → State → State × Option RunError
  unfolding declaration_changed set_up_node invalidate_produced_node
  setup_node ordered r s = elim (lookup r.node_id s.tasks) [
    | none ↦ set_up_node r s
    | some existing ↦
        if not (is_cleaned existing.status) && declaration_changed r existing
        then (s, some (different_declaration r.node_id))
        else if is_produced existing.status
        then elim (go.alive r existing) [
          | none ↦ (report (alive r.node_id) s, none)
          | some e ↦
              let checked = report (alive_failed r.node_id) s in
              let (s', error) = invalidate_produced_node r existing ordered e checked in
              elim error [ some f ↦ (s', some f) | none ↦ set_up_node r s' ]
        ]
        else set_up_node r s
  ]

  pub setup_each : List Resolved → List Resolved → State → State × Option RunError
  unfolding setup_node
  setup_each ordered [] s = (s, none)
  setup_each ordered (r ∷ rs) s =
      let (s', error) = setup_node ordered r s in
      elim error [ some e ↦ (s', some e) | none ↦ setup_each ordered rs s' ]

  unfoldable pub run_setup : List Resolved → State → State × Option RunError
  unfolding setup_each
  run_setup ordered s = setup_each ordered ordered s
