-- ===== src/Task/Plan/Widen.antt =====
-- Setup orders joined: what lets the two scopes of a plan be put one after the other.
use mathlib.Core.List.{Memᴰ}
use plecture.Base.{
  String, ◌+◌, ◌≡◌, refl, sym, subst, ◌∙◌, inl, inr, ◌⊎◌, true, ◌||◌, List, [], ◌∷◌, ◌++◌, arith,
  ◌==◌, length, contains, Distinct, All, All-map, Bool-cases, eq_of_==, ==-refl,
}
use plecture.Task.Node.{Scope, session, run, scope_eq, Resolved, ids}
use plecture.Task.Sort.{sorted, topo_sort_nodes}
use plecture.Task.Sort.Order.{DepsDone, IsOrdered, IsSetupOrder}
use plecture.Task.Sort.Cycle.{topo_sort_nodes_total}
use plecture.Task.Plan.{filter_by_scope}

-- A successful sort is a setup order.
pub sorted-IsSetupOrder :
    (list out : List Resolved)
    → Distinct (ids list)
    → topo_sort_nodes list ≡ sorted out
    → IsSetupOrder list out
sorted-IsSetupOrder list out unique h = elim (topo_sort_nodes_total list unique) [
  | inl (o, e, v) ↦ subst (IsSetupOrder list) (same o (sym e ∙ h)) v
  | inr (i, k, e, _, _) ↦ absurd (cc (e, h))
]
  where
    same : (o : List Resolved) → sorted o ≡ sorted out → o ≡ out
    same o e = cc

-- `done` may grow, and the names asked for may be others, if each is done anyway.
pub IsOrdered-widen :
    (sc sc' done done' : List String) (out : List Resolved)
    → ((s : String) → contains done s ≡ true → contains done' s ≡ true)
    → All
        (λ r.
          All
            (λ d. contains sc' d ≡ true → (contains sc d ≡ true) ⊎ (contains done' d ≡ true))
            r.depends_on)
        out
    → IsOrdered sc done out
    → IsOrdered sc' done' out
IsOrdered-widen sc sc' done done' [] w n o = tt
IsOrdered-widen sc sc' done done' (r ∷ rs) w n o = (
  deps r.depends_on n.0 o.0,
  IsOrdered-widen sc sc' (r.node_id ∷ done) (r.node_id ∷ done') rs (λ s h. ground (arith, w s))
      (All-map (λ q a. All-map (λ d f. later d f) q.depends_on a) rs n.1) o.1,
)
  where
    later :
        (d : String)
        → (contains sc' d ≡ true → (contains sc d ≡ true) ⊎ (contains done' d ≡ true))
        → contains sc' d ≡ true
        → (contains sc d ≡ true) ⊎ (contains (r.node_id ∷ done') d ≡ true)
    later d f h = ground (arith, f h)

    deps :
        (ds : List String)
        → All (λ d. contains sc' d ≡ true → (contains sc d ≡ true) ⊎ (contains done' d ≡ true)) ds
        → DepsDone sc done ds
        → DepsDone sc' done' ds
    deps [] a b = tt
    deps (d ∷ ds) a b = (λ h. ground (arith, a.0 h, b.0, w d), deps ds a.1 b.1)

-- Names done after a list has been set up.
abbrev pub done_after : List String → List Resolved → List String
done_after done [] = done
done_after done (r ∷ rs) = done_after (r.node_id ∷ done) rs

pub contains-done_after :
    (done : List String) (rs : List Resolved) (s : String)
    → contains (done_after done rs) s ≡ (contains (ids rs) s || contains done s)
contains-done_after done [] s = refl
contains-done_after done (r ∷ rs) s = ground (arith, contains-done_after (r.node_id ∷ done) rs s)

pub IsOrdered-append :
    (sc done : List String) (xs ys : List Resolved)
    → IsOrdered sc done xs
    → IsOrdered sc (done_after done xs) ys
    → IsOrdered sc done (xs ++ ys)
IsOrdered-append sc done [] ys o p = p
IsOrdered-append sc done (x ∷ xs) ys o p = (o.0, IsOrdered-append sc (x.node_id ∷ done) xs ys o.1 p)

scope_eq_refl : (s : Scope) → scope_eq s s ≡ true
scope_eq_refl session = refl
scope_eq_refl run = refl

-- A node of the list stands in one of the two scopes.
pub by_scope :
    (nodes : List Resolved) (q : Resolved)
    → Memᴰ q nodes
    → contains (ids (filter_by_scope nodes q.scope)) q.node_id ≡ true
by_scope [] q m = elim m [ ]
by_scope (r ∷ rs) q (Memᴰ.head p) =
    subst (λ z. contains (ids (filter_by_scope (z ∷ rs) q.scope)) q.node_id ≡ true) p
      (ground (arith, scope_eq_refl q.scope, ==-refl q.node_id))
by_scope (r ∷ rs) q (Memᴰ.tail m) = ground (arith, by_scope rs q m)

pub scopes_split :
    (nodes : List Resolved)
    → length (filter_by_scope nodes session) + length (filter_by_scope nodes run) ≡ length nodes
scopes_split [] = refl
scopes_split (r ∷ rs) = ground (arith, scopes_split rs)

pub scope_of : (r : Resolved) (s : Scope) → scope_eq r.scope s ≡ true → r.scope ≡ s
scope_of r s h = ground arith

pub all_names :
    (out : List Resolved) (rs : List Resolved) (d : String)
    → All (λ r. contains (ids out) r.node_id ≡ true) rs
    → contains (ids rs) d ≡ true
    → contains (ids out) d ≡ true
all_names out [] d a h = cc
all_names out (r ∷ rs) d a h = elim (Bool-cases (r.node_id == d)) [
  | inl e ↦ subst (λ t. contains (ids out) t ≡ true) (eq_of_== r.node_id d e) a.0
  | inr n ↦ all_names out rs d a.1 (rw n at h)
]
