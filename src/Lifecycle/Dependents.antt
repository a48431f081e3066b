-- ===== src/Lifecycle/Dependents.antt =====
-- `transitiveDependents` of app/internal/task/liveness.go.
pub mod Visit
pub mod Closure
use plecture.Base.{
  String, ℕ, zero, suc, ◌+◌, Bool, List, [], ◌∷◌, ◌++◌, Option, none, some, if◌then◌else◌, ◌==◌,
  contains, filter, length,
}
use plecture.Task.Node.{Resolved}

-- `children[cur]`: a node once for each of its dependencies that is `cur`.
pub children_in : String → String → List String → List String
children_in cur id [] = []
children_in cur id (dep ∷ deps) =
    let rest = children_in cur id deps in if dep == cur then id ∷ rest else rest

pub children_of : String → List Resolved → List String
unfolding children_in
children_of cur [] = []
children_of cur (r ∷ rs) = children_in cur r.node_id r.depends_on ++ children_of cur rs

-- The inner loop, on what is seen and what waits.
pub visit : List String → List String → List String → List String × List String
visit seen queue [] = (seen, queue)
visit seen queue (child ∷ children) =
    let skip = visit seen queue children in
    let push = visit (child ∷ seen) (queue ++ child ∷ []) children in
    if contains seen child then skip else push

-- The loop over the queue; `none` means that the fuel ran out.
pub search_all : ℕ → List Resolved → List String → List String → Option (List String)
unfolding children_of visit
search_all fuel ordered seen [] = some seen
search_all zero ordered seen (cur ∷ queue) = none
search_all (suc fuel) ordered seen (cur ∷ queue) =
    let next = visit seen queue (children_of cur ordered) in search_all fuel ordered next.0 next.1

unfoldable pub transitive_dependents : String → List Resolved → Option (List Resolved)
unfolding search_all
transitive_dependents node_id ordered =
    elim (search_all (suc (length ordered)) ordered (node_id ∷ []) (node_id ∷ [])) [
      | none ↦ none
      | some seen ↦ some (filter (λ r. contains seen r.node_id) ordered)
    ]
