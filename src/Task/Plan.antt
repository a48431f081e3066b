-- ===== src/Task/Plan.antt =====
-- The workflow compiler of app/internal/task/task.go, from the resolved nodes on:
-- `deriveDependsOn`, `applyBlocks`, `assemblePlan`, and `CompileWorkflow` over them.
pub mod Checks
pub mod Widen
pub mod UpOrder
pub mod Blocks
use plecture.Base.{
  String, ℕ, zero, suc, Bool, true, false, not, ◌&&◌, List, [], ◌∷◌, ◌++◌, Option, none, some,
  if◌then◌else◌, ◌==◌, length, filter, contains, eqb,
}
use plecture.Task.Node.{Scope, session, run, is_session, scope_eq, Resolved, Plan, ids}
use plecture.Task.Sort.{SortResult, sorted, cycle, cycle_involving, out_of_fuel, topo_sort_nodes}

-- The errors of the compiler, with the node ids that their texts name.
pub data PlanError : Type 0 where
  no_nodes : PlanError
  reads_own_outputs : String → PlanError
  reads_unknown : String → String → PlanError
  session_on_run : String → String → PlanError
  length_mismatch : PlanError
  blocks_itself : String → PlanError
  blocks_unknown : String → String → PlanError
  duplicate_node : String → PlanError
  two_terminals : String → String → PlanError
  unknown_dependency : String → String → PlanError
  dependency_cycle : Option String → PlanError
  sort_out_of_fuel : PlanError

pub data Compiled {ℓ} (A : Type ℓ) : Type ℓ where
  compiled : A → Compiled A
  refused : PlanError → Compiled A

infixl 5 ◌>>=◌ ◌>>◌
abbrev pub ◌>>=◌ {ℓ κ} :
    {From : Type ℓ} {To : Type κ} → Compiled From → (From → Compiled To) → Compiled To
refused problem >>= next = refused problem
compiled value >>= next = next value

-- A check, and then the rest.
abbrev pub ◌>>◌ {ℓ} : {To : Type ℓ} → Compiled (Unit {0}) → Compiled To → Compiled To
check >> rest = check >>= λ _. rest

-- `byID[id]`: where an id is repeated, the map holds the later node.
abbrev pub by_id : List Resolved → String → Option Resolved
by_id [] id = none
by_id (r ∷ rs) id = elim (by_id rs id) [
  | some q ↦ some q
  | none ↦ if r.node_id == id then some r else none
]

-- The scope rule: a session-scoped node must not depend on a run-scoped one.
abbrev pub outlives : Scope → Scope → Bool
outlives from to = scope_eq from session && scope_eq to run

pub derive_reads : List Resolved → Resolved → List String → Compiled Resolved
derive_reads nodes n [] = compiled n
derive_reads nodes n (ref ∷ refs) =
    let rest = derive_reads nodes (record n { depends_on = n.depends_on ++ ref ∷ [] }) refs in
    if ref == n.node_id then refused (reads_own_outputs n.node_id) else elim (by_id nodes ref) [
      | none ↦ refused (reads_unknown n.node_id ref)
      | some dep ↦
          if outlives n.scope dep.scope then refused (session_on_run n.node_id ref) else rest
    ]

pub derive_each : List Resolved → List Resolved → Compiled (List Resolved)
unfolding derive_reads
derive_each nodes [] = compiled []
derive_each nodes (n ∷ ns) = do
  m ← derive_reads nodes n n.reads
  ms ← derive_each nodes ns
  compiled (m ∷ ms)

pub derive_depends_on : List Resolved → Compiled (List Resolved)
unfolding derive_each
derive_depends_on nodes = derive_each nodes nodes

abbrev pub has_dep : List String → String → Bool
has_dep = contains

-- `t.DependsOn = append(t.DependsOn, srcID)` at the node that `byID[target]` points to.
pub add_dep : String → String → List Resolved → List Resolved
add_dep target src [] = []
add_dep target src (r ∷ rs) =
    if r.node_id == target && not (contains (ids rs) target)
    then record r { depends_on = r.depends_on ++ src ∷ [] } ∷ rs
    else r ∷ add_dep target src rs

pub block_targets : String → List String → List Resolved → Compiled (List Resolved)
unfolding add_dep
block_targets src [] nodes = compiled nodes
block_targets src (target ∷ targets) nodes =
    let skip = block_targets src targets nodes in
    let linked = block_targets src targets (add_dep target src nodes) in
    if target == src then refused (blocks_itself src) else elim (by_id nodes target) [
      | none ↦ refused (blocks_unknown src target)
      | some t ↦ if has_dep t.depends_on src then skip else linked
    ]

-- The loop over `wfNodes`, each paired with the id of the node compiled from it.
pub block_each : List (String × List String) → List Resolved → Compiled (List Resolved)
unfolding block_targets
block_each [] nodes = compiled nodes
block_each ((src, targets) ∷ rest) nodes = block_targets src targets nodes >>= block_each rest

abbrev pub zip_ids : List Resolved → List (List String) → List (String × List String)
zip_ids [] bs = []
zip_ids (r ∷ rs) [] = []
zip_ids (r ∷ rs) (b ∷ bs) = (r.node_id, b) ∷ zip_ids rs bs

-- `blocks` holds the `Blocks` list of each workflow node.
pub apply_blocks : List Resolved → List (List String) → Compiled (List Resolved)
unfolding block_each
apply_blocks nodes blocks =
    if eqb (length blocks) (length nodes)
    then block_each (zip_ids nodes blocks) nodes
    else refused length_mismatch

pub check_duplicates : List String → List Resolved → Compiled (Unit {0})
check_duplicates seen [] = compiled tt
check_duplicates seen (r ∷ rs) =
    let rest = check_duplicates (r.node_id ∷ seen) rs in
    if contains seen r.node_id then refused (duplicate_node r.node_id) else rest

-- `terminalID`, the empty text while no node has declared `[terminal]`.
pub check_terminals : String → List Resolved → Compiled (Unit {0})
check_terminals terminal_id [] = compiled tt
check_terminals terminal_id (r ∷ rs) =
    let skip = check_terminals terminal_id rs in
    let taken = check_terminals r.node_id rs in
    if r.terminal
    then (if terminal_id == "" then taken else refused (two_terminals terminal_id r.node_id))
    else skip

pub check_deps : List Resolved → Resolved → List String → Compiled (Unit {0})
check_deps nodes r [] = compiled tt
check_deps nodes r (dep ∷ deps) =
    let rest = check_deps nodes r deps in
    elim (by_id nodes dep) [
      | none ↦ refused (unknown_dependency r.node_id dep)
      | some d ↦ if outlives r.scope d.scope then refused (session_on_run r.node_id dep) else rest
    ]

pub check_each : List Resolved → List Resolved → Compiled (Unit {0})
unfolding check_deps
check_each nodes [] = compiled tt
check_each nodes (r ∷ rs) = check_deps nodes r r.depends_on >> check_each nodes rs

abbrev pub filter_by_scope : List Resolved → Scope → List Resolved
filter_by_scope resolved scope = filter (λ r. scope_eq r.scope scope) resolved

abbrev pub sort_result : SortResult → Compiled (List Resolved)
sort_result (sorted out) = compiled out
sort_result (cycle_involving id) = refused (dependency_cycle (some id))
sort_result cycle = refused (dependency_cycle none)
sort_result out_of_fuel = refused sort_out_of_fuel

unfoldable pub assemble_plan : List Resolved → Compiled Plan
unfolding check_duplicates check_terminals check_each topo_sort_nodes
assemble_plan resolved = do
  check_duplicates [] resolved
  check_terminals "" resolved
  check_each resolved resolved
  session_sorted ← sort_result (topo_sort_nodes (filter_by_scope resolved session))
  run_sorted ← sort_result (topo_sort_nodes (filter_by_scope resolved run))
  compiled (record { session_nodes = session_sorted; run_nodes = run_sorted })

-- `CompileWorkflow` and `resolveWorkflowNodes`, after each node's definition is resolved.
unfoldable pub compile_workflow : List Resolved → List (List String) → Compiled Plan
unfolding derive_depends_on apply_blocks assemble_plan
compile_workflow [] blocks = refused no_nodes
compile_workflow (n ∷ ns) blocks = do
  derived ← derive_depends_on (n ∷ ns)
  linked ← apply_blocks derived blocks
  assemble_plan linked

-- `Plan.UpOrder`.
unfoldable pub up_order : Plan → List Resolved
up_order p = p.session_nodes ++ p.run_nodes

-- `Plan.TerminalTask`.
pub terminal_in : List Resolved → Option Resolved
terminal_in [] = none
terminal_in (r ∷ rs) = if r.terminal then some r else terminal_in rs

pub terminal_task : Plan → Option Resolved
unfolding terminal_in
terminal_task p = elim (terminal_in p.session_nodes) [
  | some r ↦ some r
  | none ↦ terminal_in p.run_nodes
]
