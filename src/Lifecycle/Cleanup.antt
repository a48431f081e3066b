-- ===== src/Lifecycle/Cleanup.antt =====
-- `RunCleanup` of app/internal/task/task.go.
pub mod Release
use plecture.Base.{
  String, ℕ, Bool, List, [], ◌∷◌, ◌++◌, Option, none, some, if◌then◌else◌, lookup, is_none,
}
use plecture.Task.Node.{Resolved}
use plecture.Lifecycle.Record.{
  Status, failed, cleaned, is_cleaned, Layer, TaskState, Tasks, Report, started, skipped,
  cleaned_up, cleanup_failed, Runner, State, report, store, put, RunError, cleanup_error,
  no_definition,
}

-- `mark` and the report of a failure, and of a success.
abbrev pub fail_cleanup : Runner → Resolved → TaskState → String → State → State
fail_cleanup go r st message s =
    report (cleanup_failed r.node_id)
      (store r.node_id (record st { status = failed; error = message; failed_at = go.now }) s)

abbrev pub finish_cleanup : Runner → Resolved → TaskState → State → State
finish_cleanup go r st s =
    report (cleaned_up r.node_id)
      (store r.node_id (record st { status = cleaned; cleaned_at = go.now }) s)

-- One round of the loop, on a node with a record.
pub cleanup_record : Runner → Resolved → TaskState → State → State × Option RunError
cleanup_record go r st s =
    let begun = report (started r.node_id) s in
    let chain = go.cleanup_layers r st s.tasks in
    let unwound = record st { layers = chain.0 } in
    if is_cleaned st.status
    then (report (skipped r.node_id) s, none)
    else if r.unresolved
    then (
      fail_cleanup go r st "current definition not found; record left unreleased" begun,
      some (no_definition r.node_id),
    )
    else elim st.layers [
      | l ∷ ls ↦ elim chain.1 [
        | some e ↦ (fail_cleanup go r unwound e begun, some (cleanup_error r.node_id e))
        | none ↦ (finish_cleanup go r (record unwound { error = "" }) begun, none)
      ]
      | [] ↦
          if r.cleanup
          then elim (go.run_cleanup r st s.tasks) [
            | some e ↦ (fail_cleanup go r st e begun, some (cleanup_error r.node_id e))
            | none ↦ (finish_cleanup go r (record st { error = "" }) begun, none)
          ]
          else (finish_cleanup go r st s, none)
    ]

pub cleanup_node : Runner → Resolved → State → State × Option RunError
unfolding cleanup_record put
cleanup_node go r s = elim (lookup r.node_id s.tasks) [
  | none ↦ (report (skipped r.node_id) s, none)
  | some st ↦ cleanup_record go r st s
]

-- The loop from the last node to the first, with the error of the round that failed first.
unfoldable pub run_cleanup : Runner → List Resolved → State → State × Option RunError
unfolding cleanup_node
run_cleanup go [] s = (s, none)
run_cleanup go (r ∷ rs) s =
    let (s', first) = run_cleanup go rs s in
    let (s'', e) = cleanup_node go r s' in (s'', elim first [ some f ↦ some f | none ↦ e ])
