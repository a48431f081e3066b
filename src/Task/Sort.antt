-- ===== src/Task/Sort.antt =====
-- `topoSortNodes` (app/internal/task/task.go): Kahn's algorithm over the declared order.
pub mod Counts
pub mod Names
pub mod Relax
pub mod Kahn
pub mod Start
pub mod Order
pub mod Cycle
pub mod Refusal
use plecture.Base.{
  String, ℕ, zero, suc, Bool, List, [], ◌∷◌, ◌++◌, Option, none, some, if◌then◌else◌, eqb, ◌==◌,
  length, filter, contains, update,
}
use plecture.Base.Int.{ℤ, pos, incr, decr, is_zero, is_positive}
use plecture.Task.Node.{Resolved, ids}

-- `map[string]int`: a missing key reads as 0.
abbrev pub Indegrees : Type 0
Indegrees = String → ℤ

pub data SortResult : Type 0 where
  sorted : List Resolved → SortResult
  cycle_involving : String → SortResult
  cycle : SortResult
  out_of_fuel : SortResult

pub count_deps : List String → String → List String → Indegrees → Indegrees
count_deps in_scope id [] indeg = indeg
count_deps in_scope id (dep ∷ deps) indeg =
    count_deps in_scope id deps
      (if contains in_scope dep then update indeg id (incr (indeg id)) else indeg)

pub count_nodes : List String → List Resolved → Indegrees → Indegrees
unfolding count_deps
count_nodes in_scope [] indeg = indeg
count_nodes in_scope (r ∷ rs) indeg =
    count_nodes in_scope rs (count_deps in_scope r.node_id r.depends_on indeg)

-- One `indeg[r.NodeID]--`, with the append when the count reaches 0.
pub release : Resolved → Indegrees → List Resolved → Indegrees × List Resolved
release r indeg ready =
    let left = decr (indeg r.node_id) in
    (update indeg r.node_id left, if is_zero left then ready ++ r ∷ [] else ready)

pub relax_deps :
    String → Resolved → List String → Indegrees → List Resolved → Indegrees × List Resolved
unfolding release
relax_deps cur r [] indeg ready = (indeg, ready)
relax_deps cur r (dep ∷ deps) indeg ready =
    let next = (if dep == cur then release r indeg ready else (indeg, ready)) in
    relax_deps cur r deps next.0 next.1

pub relax_nodes : String → List Resolved → Indegrees → List Resolved → Indegrees × List Resolved
unfolding relax_deps
relax_nodes cur [] indeg ready = (indeg, ready)
relax_nodes cur (r ∷ rs) indeg ready =
    let next = relax_deps cur r r.depends_on indeg ready in relax_nodes cur rs next.0 next.1

-- The `for len(ready) > 0` loop; `none` means that the fuel ran out.
pub kahn :
    ℕ
    → List Resolved
    → Indegrees
    → List Resolved
    → List Resolved
    → Option (Indegrees × List Resolved)
unfolding relax_nodes
kahn fuel list indeg [] out = some (indeg, out)
kahn zero list indeg (cur ∷ ready) out = none
kahn (suc fuel) list indeg (cur ∷ ready) out =
    let next = relax_nodes cur.node_id list indeg ready in
    kahn fuel list next.0 next.1 (out ++ cur ∷ [])

-- The node that the error names: the first with a count left.
pub first_blocked : List Resolved → Indegrees → SortResult
first_blocked [] indeg = cycle
first_blocked (r ∷ rs) indeg =
    if is_positive (indeg r.node_id) then cycle_involving r.node_id else first_blocked rs indeg

pub finish : List Resolved → Option (Indegrees × List Resolved) → SortResult
unfolding first_blocked
finish list none = out_of_fuel
finish list (some (indeg, out)) =
    if eqb (length out) (length list) then sorted out else first_blocked list indeg

unfoldable pub topo_sort_nodes : List Resolved → SortResult
unfolding count_nodes kahn finish
topo_sort_nodes list =
    let indeg = count_nodes (ids list) list (λ _. pos 0) in
    finish list (kahn (length list) list indeg (filter (λ r. is_zero (indeg r.node_id)) list) [])
