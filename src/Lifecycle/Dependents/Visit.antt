-- ===== src/Lifecycle/Dependents/Visit.antt =====
-- One round of the search.
use text.Mathlib.TextEquality.{eq_iff}
use plecture.Base.{
  String, ℕ, suc, ◌+◌, ◌≤◌, ◌≡◌, ap, inl, inr, Bool, true, false, not, ◌||◌, List, [], ◌∷◌, ◌++◌,
  arith, ◌==◌, contains, contains-append, length, length-append, count, All, All-map, Bool-cases,
  ==-refl,
}
use plecture.Task.Node.{Resolved, ids}
use plecture.Lifecycle.Dependents.{children_in, children_of, visit}

abbrev pub Within : List String → (String → Bool) → Type 0
Within xs p = (x : String) → contains xs x ≡ true → p x ≡ true

-- A set of names that holds with a node also the nodes that depend on it.
abbrev pub IsClosed : List Resolved → (String → Bool) → Type 0
IsClosed ordered p =
    All (λ r. (d : String) → contains r.depends_on d ≡ true → p d ≡ true → p r.node_id ≡ true)
      ordered

pub visit-keeps :
    (seen queue children : List String) → Within seen (contains (visit seen queue children).0)
unfolding visit
visit-keeps seen queue [] x h = h
visit-keeps seen queue (c ∷ cs) x h =
    ground (arith, visit-keeps seen queue cs x, visit-keeps (c ∷ seen) (queue ++ c ∷ []) cs x)

pub visit-adds :
    (seen queue children : List String) → Within children (contains (visit seen queue children).0)
unfolding visit
visit-adds seen queue [] x h = cc
visit-adds seen queue (c ∷ cs) x h = ground (
  arith,
  eq_iff c x,
  visit-adds seen queue cs x,
  visit-adds (c ∷ seen) (queue ++ c ∷ []) cs x,
  visit-keeps seen queue cs x,
  visit-keeps (c ∷ seen) (queue ++ c ∷ []) cs x,
)

pub visit-queued :
    (seen queue children : List String) → Within queue (contains (visit seen queue children).1)
unfolding visit
visit-queued seen queue [] x h = h
visit-queued seen queue (c ∷ cs) x h = ground (
  arith,
  contains-append queue (c ∷ []) x,
  visit-queued seen queue cs x,
  visit-queued (c ∷ seen) (queue ++ c ∷ []) cs x,
)

pub visit-new :
    (seen queue children : List String)
    → Within
        (visit seen queue children).0
        (λ x. contains seen x || contains (visit seen queue children).1 x)
unfolding visit
visit-new seen queue [] x h = ground arith
visit-new seen queue (c ∷ cs) x h = ground (
  arith,
  contains-append queue (c ∷ []) x,
  eq_iff c x,
  visit-new seen queue cs x,
  visit-new (c ∷ seen) (queue ++ c ∷ []) cs x,
  visit-queued (c ∷ seen) (queue ++ c ∷ []) cs x,
)

pub visit_sound :
    (p : String → Bool) (seen queue children : List String)
    → Within seen p
    → Within queue p
    → Within children p
    → Within (visit seen queue children).0 p × Within (visit seen queue children).1 p
unfolding visit
visit_sound p seen queue [] a b c = (a, b)
visit_sound p seen queue (k ∷ ks) a b c = elim (Bool-cases (contains seen k)) [
  | inl e ↦ rw (e, visit) (visit_sound p seen queue ks a b (λ x h. c x (ground arith)))
  | inr e ↦
      rw (e, visit)
        (visit_sound p (k ∷ seen) (queue ++ k ∷ []) ks
          (λ x h. elim (Bool-cases (k == x)) [
            | inl q ↦ c x (ground arith)
            | inr q ↦ a x (ground arith)
          ])
          (λ x h. elim (Bool-cases (k == x)) [
            | inl q ↦ c x (ground arith)
            | inr q ↦ b x (ground (arith, contains-append queue (k ∷ []) x))
          ])
          (λ x h. c x (ground arith)))
]

abbrev pub unseen : List Resolved → List String → ℕ
unseen ordered seen = count (λ r. not (contains seen r.node_id)) ordered

unseen_le :
    (ordered : List Resolved) (seen : List String) (c : String)
    → unseen ordered (c ∷ seen) ≤ unseen ordered seen
unseen_le [] seen c = omega arith
unseen_le (r ∷ rs) seen c = ground (arith, unseen_le rs seen c)

unseen_lt :
    (ordered : List Resolved) (seen : List String) (c : String)
    → contains (ids ordered) c ≡ true
    → contains seen c ≡ false
    → suc (unseen ordered (c ∷ seen)) ≤ unseen ordered seen
unseen_lt [] seen c h n = cc
unseen_lt (r ∷ rs) seen c h n =
    ground (arith, eq_iff r.node_id c, eq_iff c r.node_id, unseen_le rs seen c, unseen_lt rs seen c)

pub visit-measure :
    (ordered : List Resolved) (seen queue children : List String)
    → Within children (contains (ids ordered))
    → unseen ordered (visit seen queue children).0 + length (visit seen queue children).1
      ≤ unseen ordered seen + length queue
unfolding visit
visit-measure ordered seen queue [] w = omega arith
visit-measure ordered seen queue (c ∷ cs) w =
    let inner : Within cs (contains (ids ordered)) = λ x h. w x (ground arith) in
    ground (
      arith,
      visit-measure ordered seen queue cs inner,
      visit-measure ordered (c ∷ seen) (queue ++ c ∷ []) cs inner,
      unseen_lt ordered seen c (w c (ground (arith, ==-refl c))),
      length-append queue (c ∷ []),
    )

children_in-Within :
    (cur id : String) (deps : List String) (p : String → Bool)
    → (contains deps cur ≡ true → p id ≡ true)
    → Within (children_in cur id deps) p
unfolding children_in
children_in-Within cur id [] p h x m = cc
children_in-Within cur id (d ∷ deps) p h x m = ground (
  arith,
  eq_iff id x,
  λ (e : id ≡ x). ap p e,
  children_in-Within cur id deps p (λ k. h (ground arith)) x,
  h,
)

pub children_of-Within :
    (cur : String) (rs : List Resolved) (p : String → Bool)
    → All (λ r. contains r.depends_on cur ≡ true → p r.node_id ≡ true) rs
    → Within (children_of cur rs) p
unfolding children_of
children_of-Within cur [] p a x m = cc
children_of-Within cur (r ∷ rs) p a x m = ground (
  arith,
  contains-append (children_in cur r.node_id r.depends_on) (children_of cur rs) x,
  children_in-Within cur r.node_id r.depends_on p a.0 x,
  children_of-Within cur rs p a.1 x,
)

children_in-lists :
    (cur id : String) (deps : List String)
    → contains deps cur ≡ true
    → contains (children_in cur id deps) id ≡ true
unfolding children_in
children_in-lists cur id [] h = cc
children_in-lists cur id (d ∷ deps) h = ground (arith, children_in-lists cur id deps, ==-refl id)

pub children_of-lists :
    (cur : String) (rs : List Resolved)
    → All
        (λ r. contains r.depends_on cur ≡ true → contains (children_of cur rs) r.node_id ≡ true)
        rs
unfolding children_of
children_of-lists cur [] = tt
children_of-lists cur (r ∷ rs) = (
  λ h. ground (
    arith,
    contains-append (children_in cur r.node_id r.depends_on) (children_of cur rs) r.node_id,
    children_in-lists cur r.node_id r.depends_on h,
  ),
  All-map
      (λ q f h. ground (
        arith,
        contains-append (children_in cur r.node_id r.depends_on) (children_of cur rs) q.node_id,
        f h,
      ))
      rs (children_of-lists cur rs),
)

pub ids-within : (rs : List Resolved) → All (λ r. contains (ids rs) r.node_id ≡ true) rs
ids-within [] = tt
ids-within (r ∷ rs) =
    (ground (arith, ==-refl r.node_id), All-map (λ q h. ground arith) rs (ids-within rs))

pub children_known :
    (cur : String) (ordered : List Resolved)
    → Within (children_of cur ordered) (contains (ids ordered))
children_known cur ordered =
    children_of-Within cur ordered (contains (ids ordered))
      (All-map (λ r k h. k) ordered (ids-within ordered))
