-- ===== src/Task/Scenarios.antt =====
-- Small workflows that the theorems on plans are applied to, and runs of the code on them.
use plecture.Base.{◌↔◌, String, ◌≡◌, refl, ◌⊎◌, true, false, List, [], ◌∷◌, Distinct}
use plecture.Task.Node.{Scope, session, run, Resolved, Plan, ids}
use plecture.Task.Sort.{cycle_involving, topo_sort_nodes}
use plecture.Task.Sort.Order.{IsSetupOrder}
use plecture.Task.Sort.Refusal.{topo_sort_nodes-exact}
use plecture.Task.Sort.Cycle.{Sorted, Knotted, topo_sort_nodes_total}
use plecture.Task.Plan.{compiled, compile_workflow}
use plecture.Task.Plan.Blocks.{IsCompiled, compile_workflow-IsCompiled}

abbrev node : String → Scope → List String → List String → Resolved
node id scope reads deps = record {
  node_id = id;
  task_id = id;
  scope = scope;
  terminal = false;
  setup = true;
  cleanup = true;
  reads = reads;
  depends_on = deps;
  layers = [];
  unresolved = false;
}

-- An agent that needs a worktree, and a watcher that the agent blocks.
abbrev declared : List Resolved
declared =
    node "watch" run [] [] ∷ node "agent" run ("tree" ∷ []) [] ∷ node "tree" session [] [] ∷ []

abbrev blocks : List (List String)
blocks = [] ∷ ("watch" ∷ []) ∷ [] ∷ []

abbrev linked_nodes : List Resolved
linked_nodes =
    node "watch" run [] ("agent" ∷ [])
    ∷ node "agent" run ("tree" ∷ []) ("tree" ∷ [])
    ∷ node "tree" session [] []
    ∷ []

abbrev plan : Plan
plan = record {
  session_nodes = node "tree" session [] [] ∷ [];
  run_nodes =
      node "agent" run ("tree" ∷ []) ("tree" ∷ []) ∷ node "watch" run [] ("agent" ∷ []) ∷ [];
}

plan_compiles : compile_workflow declared blocks ≡ compiled plan
unfolding compile_workflow
plan_compiles = refl

compile_workflow-IsCompiled_example :
    (derived : List Resolved) × (linked : List Resolved) × IsCompiled declared blocks plan derived
      linked
compile_workflow-IsCompiled_example = compile_workflow-IsCompiled declared blocks plan plan_compiles

-- Two nodes that wait for each other, and a third that waits for nothing.
abbrev circle : List Resolved
circle = node "a" run [] ("b" ∷ []) ∷ node "b" run [] ("a" ∷ []) ∷ node "c" run [] [] ∷ []

circle_refused : topo_sort_nodes circle ≡ cycle_involving "a"
unfolding topo_sort_nodes
circle_refused = refl

circle_unique : Distinct (ids circle)
circle_unique = (refl, (refl, (refl, tt)))

topo_sort_nodes_total_example : Sorted circle ⊎ Knotted circle
topo_sort_nodes_total_example = topo_sort_nodes_total circle circle_unique

topo_sort_nodes-exact_example : Sorted circle ↔ ((out : List Resolved) × IsSetupOrder circle out)
topo_sort_nodes-exact_example = topo_sort_nodes-exact circle circle_unique
