-- ===== src/Lifecycle/Setup/Compiled.antt =====
-- The setup of a compiled workflow.
use mathlib.Core.List.{Memᴰ}
use text.Mathlib.TextEquality.{eq_iff}
use plecture.Base.{
  String, ◌≡◌, ap, true, List, [], ◌∷◌, none, arith, lookup, contains, All, All-map,
}
use plecture.Task.Node.{Resolved, Plan, ids}
use plecture.Task.Sort.Names.{contains_mem}
use plecture.Task.Sort.Order.{IsOrdered}
use plecture.Task.Plan.{compiled, compile_workflow, up_order}
use plecture.Task.Plan.Blocks.{compile_workflow-IsCompiled}
use plecture.Lifecycle.Record.{Runner, State}
use plecture.Lifecycle.Cleanup.Release.{is_held}
use plecture.Lifecycle.Setup.{run_setup}
use plecture.Lifecycle.Setup.Complete.{run_setup-produced}

-- An order against more names is one against fewer.
IsOrdered-fewer :
    (more fewer done : List String) (rs : List Resolved)
    → ((x : String) → contains fewer x ≡ true → contains more x ≡ true)
    → IsOrdered more done rs
    → IsOrdered fewer done rs
IsOrdered-fewer more fewer done [] f o = tt
IsOrdered-fewer more fewer done (r ∷ rs) f o = (
  All-map (λ d g h. g (f d h)) r.depends_on o.0,
  IsOrdered-fewer more fewer (r.node_id ∷ done) rs f o.1,
)

names_known :
    (list out : List Resolved)
    → All (λ r. Memᴰ r list) out
    → (x : String) → contains (ids out) x ≡ true
    → contains (ids list) x ≡ true
names_known list [] a x h = cc
names_known list (r ∷ rs) a x h = ground (
  arith,
  eq_iff r.node_id x,
  contains_mem r list a.0,
  λ (e : r.node_id ≡ x). ap (contains (ids list)) e,
  names_known list rs a.1 x,
)

-- When a workflow compiles, and the setup of its plan, from any records, ends without an error, then
-- every node of the plan is produced.
pub compile_workflow-produced :
    (nodes : List Resolved) (blocks : List (List String)) (plan : Plan) (go : Runner) (s : State)
    → compile_workflow nodes blocks ≡ compiled plan
    → (run_setup go (up_order plan) s).1 ≡ none
    → All
        (λ r. is_held (lookup r.node_id (run_setup go (up_order plan) s).0.tasks) ≡ true)
        (up_order plan)
compile_workflow-produced nodes blocks plan go s h ok =
    let (derived, linked, c) = compile_workflow-IsCompiled nodes blocks plan h in
    let o = c.order in
    run_setup-produced go (up_order plan) o.distinct s
      (IsOrdered-fewer (ids linked) (ids (up_order plan)) [] (up_order plan)
        (names_known linked (up_order plan) o.members) o.order)
      ok
