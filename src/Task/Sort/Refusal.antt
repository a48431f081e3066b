-- ===== src/Task/Sort/Refusal.antt =====
-- The sort fails on no list that has a setup order.
use plecture.Base.{◌↔◌, inl, inr, List, Distinct}
use plecture.Task.Node.{Resolved, ids}
use plecture.Task.Sort.Order.{IsSetupOrder}
use plecture.Task.Sort.Cycle.{Sorted, topo_sort_nodes_total, knot-no-order}

-- For nodes with different ids, the sort returns a setup order exactly if there is one: an order that
-- has every node once, after all the nodes of the list that it depends on.
pub topo_sort_nodes-exact :
    (list : List Resolved)
    → Distinct (ids list)
    → (Sorted list ↔ ((out : List Resolved) × IsSetupOrder list out))
topo_sort_nodes-exact list unique = (
  λ (out, e, o). (out, o),
  λ (out, o). elim (topo_sort_nodes_total list unique) [
    | inl s ↦ s
    | inr (id, knot, e, k, h) ↦ absurd (knot-no-order list knot out unique k o)
  ],
)
