-- ===== src/Task/Sort/Cycle.antt =====
-- The sort returns an order exactly when no nodes depend on one another in a circle.
use mathlib.Core.List.{Memᴰ}
use plecture.Base.{
  String, ◌+◌, ◌<◌, ◌≡◌, refl, sym, ◌∙◌, ap, subst, inl, inr, ◌⊎◌, Bool, true, false, List, [], ◌∷◌,
  some, arith, ◌==◌, eqb, ltb, contains, Distinct, All, All-map, All-filter, All_at, All-mem, any,
  filter, length, count, Bool-cases, eq_of_==, ==-refl,
}
use plecture.Base.Int.{pos}
use plecture.Task.Node.{Resolved, ids}
use plecture.Task.Sort.{Indegrees, sorted, cycle_involving, first_blocked, finish, topo_sort_nodes}
use plecture.Task.Sort.Names.{contains_mem}
use plecture.Task.Sort.Counts.{open_slots}
use plecture.Task.Sort.Kahn.{open_of, waiting}
use plecture.Task.Sort.Order.{DepsDone, IsOrdered, topo_sort_nodes-Whole, IsSetupOrder, IsKnot}
use plecture.Task.Sort.Start.{start_total}

abbrev blocked_by : List Resolved → List String → Resolved → Bool
blocked_by list done r = ltb 0 (open_of list done r)

length-filter {ℓ} : {A : Type ℓ} (p : A → Bool) (xs : List A) → length (filter p xs) ≡ count p xs
length-filter p [] = refl
length-filter p (x ∷ xs) = ground (arith, length-filter p xs)

-- A node of the list that is not done yet is blocked.
blocked_name :
    (list : List Resolved) (done : List String) (rs : List Resolved) (d : String)
    → All (λ r. eqb (open_of list done r) 0 ≡ contains done r.node_id) rs
    → contains (ids rs) d ≡ true
    → contains done d ≡ false
    → contains (ids (filter (blocked_by list done) rs)) d ≡ true
blocked_name list done [] d t c n = cc
blocked_name list done (r ∷ rs) d t c n = ground (arith, at_head, blocked_name list done rs d t.1)
  where
    at_head : (r.node_id == d) ≡ true → contains done r.node_id ≡ false
    at_head e = rw (eq_of_== r.node_id d e) n

-- An open slot names a blocked node.
open_dep :
    (list : List Resolved) (done deps : List String)
    → All (λ r. eqb (open_of list done r) 0 ≡ contains done r.node_id) list
    → 0 < open_slots (ids list) done deps
    → any (contains (ids (filter (blocked_by list done) list))) deps ≡ true
open_dep list done [] t h = absurd (omega arith)
open_dep list done (d ∷ deps) t h =
    ground (arith, blocked_name list done list d t, open_dep list done deps t)

first_blocked-cases :
    (list : List Resolved) (done : List String) (indeg : Indegrees) (rs : List Resolved)
    → All (λ r. indeg r.node_id ≡ pos (open_of list done r)) rs
    → 0 < length (filter (blocked_by list done) rs)
    → (id : String) × (first_blocked rs indeg ≡ cycle_involving id)
      × (contains (ids (filter (blocked_by list done) rs)) id ≡ true)
unfolding first_blocked
first_blocked-cases list done indeg [] h n = absurd (omega arith)
first_blocked-cases list done indeg (r ∷ rs) h n = elim (Bool-cases (blocked_by list done r)) [
  | inl e ↦ (r.node_id, ground arith, ground (arith, ==-refl r.node_id))
  | inr e ↦
      let (id, p, q) = first_blocked-cases list done indeg rs h.1 (ground arith) in
      (id, ground arith, ground arith)
]

abbrev pub Sorted : List Resolved → Type 0
Sorted list = (out : List Resolved) × (topo_sort_nodes list ≡ sorted out) × IsSetupOrder list out

abbrev pub Knotted : List Resolved → Type 0
Knotted list =
    (id : String) × (knot : List Resolved) × (topo_sort_nodes list ≡ cycle_involving id)
    × IsKnot list knot
    × (contains (ids knot) id ≡ true)

-- With no node blocked, every node of the list is done.
none_blocked :
    (list : List Resolved) (done : List String) (rs : List Resolved)
    → All (λ r. eqb (open_of list done r) 0 ≡ contains done r.node_id) rs
    → count (blocked_by list done) rs ≡ 0
    → All (λ r. contains done r.node_id ≡ true) rs
none_blocked list done [] t h = tt
none_blocked list done (r ∷ rs) t h = (ground arith, none_blocked list done rs t.1 (ground arith))

module _ (list : List Resolved) (unique : Distinct (ids list)) where
  outcome_cases :
      (tail : List Resolved) (done' : List String) (indeg' : Indegrees)
      → topo_sort_nodes list ≡ finish list (some (indeg', tail))
      → (total : length tail + waiting list done' ≡ length list) → IsOrdered (ids list) [] tail
      → Distinct (ids tail)
      → All (λ r. Memᴰ r list) tail
      → ((j : String) → contains done' j ≡ contains (ids tail) j)
      → All (λ r. eqb (open_of list done' r) 0 ≡ contains done' r.node_id) list
      → All (λ r. indeg' r.node_id ≡ pos (open_of list done' r)) list
      → Sorted list ⊎ Knotted list
  outcome_cases tail done' indeg' e total order distinct members reached taken counts =
      elim (Bool-cases (eqb (length tail) (length list))) [
        | inl same ↦ inl (
          tail,
          e ∙ (unfold finish in rw same),
          record {
            order = order;
            complete =
                All-map (λ r h. sym (reached r.node_id) ∙ h) list
                  (none_blocked list done' list taken (ground arith));
            distinct = distinct;
            members = members;
            same_length = ground arith;
          },
        )
        | inr differ ↦
            let knot = filter (blocked_by list done') list in
            let some_left : 0 < length knot =
              ground (arith, length-filter (blocked_by list done') list) in
            let (id, p, q) = first_blocked-cases list done' indeg' list counts some_left in
            inr (
              id,
              knot,
              e ∙ (unfold finish in rw differ p),
              record {
                inhabited = some_left;
                members = All-filter (blocked_by list done') (λ r m f. m) list (All-mem list);
                blocked =
                    All-filter (blocked_by list done')
                      (λ r m f. open_dep list done' r.depends_on taken (ground arith)) list
                      (All-mem list);
              },
              q,
            )
      ]

  -- For nodes with distinct ids, `topoSortNodes` always ends: it returns every node once, each
  -- after the nodes of the list that it depends on, or it reports a node of a circle, that is of a
  -- set of nodes each of which depends on a node of the set.
  pub topo_sort_nodes_total : Sorted list ⊎ Knotted list
  topo_sort_nodes_total =
      let (tail, done', indeg', e, o) = topo_sort_nodes-Whole list unique in
      outcome_cases tail done' indeg' e (omega (arith, o.total, start_total list unique)) o.order
        o.distinct o.members o.reached o.taken o.counts

-- Two nodes of the list with one name are one node.
pub same_name :
    (rs : List Resolved) (q r : Resolved)
    → Distinct (ids rs)
    → Memᴰ q rs
    → Memᴰ r rs
    → q.node_id ≡ r.node_id
    → q ≡ r
same_name [] q r d m n e = elim m [ ]
same_name (x ∷ rs) q r d (Memᴰ.head p) (Memᴰ.head p') e = p ∙ sym p'
same_name (x ∷ rs) q r d (Memᴰ.head p) (Memᴰ.tail n) e =
    cc (d.0, contains_mem r rs n, ap (λ z. contains (ids rs) z.node_id) p, ap (contains (ids rs)) e)
same_name (x ∷ rs) q r d (Memᴰ.tail m) (Memᴰ.head p') e =
    cc
      (d.0, contains_mem q rs m, ap (λ z. contains (ids rs) z.node_id) p', ap (contains (ids rs)) e)
same_name (x ∷ rs) q r d (Memᴰ.tail m) (Memᴰ.tail n) e = same_name rs q r d.1 m n e

pub named_in :
    (rs : List Resolved) (s : String)
    → contains (ids rs) s ≡ true
    → (r : Resolved) × Memᴰ r rs × (r.node_id ≡ s)
named_in [] s h = cc
named_in (x ∷ rs) s h = elim (Bool-cases (x.node_id == s)) [
  | inl e ↦ (x, Memᴰ.head refl, eq_of_== x.node_id s e)
  | inr n ↦ let (r, m, e) = named_in rs s (rw n at h) in (r, Memᴰ.tail m, e)
]

-- A dependency inside the knot names a node that is not done.
dep_undone :
    (in_scope done names deps : List String)
    → ((s : String) → contains names s ≡ true → contains in_scope s ≡ true)
    → ((s : String) → contains names s ≡ true → contains done s ≡ false)
    → any (contains names) deps ≡ true
    → DepsDone in_scope done deps
    → ⊥
dep_undone in_scope done names [] k u a h = cc
dep_undone in_scope done names (d ∷ deps) k u a h = elim (Bool-cases (contains names d)) [
  | inl e ↦ cc (h.0 (k d e), u d e)
  | inr n ↦ dep_undone in_scope done names deps k u (rw n at a) h.1
]

module _ (list knot : List Resolved) (unique : Distinct (ids list)) (k : IsKnot list knot) where
  knot_known : (s : String) → contains (ids knot) s ≡ true → contains (ids list) s ≡ true
  knot_known s h =
      let (r, m, e) = named_in knot s h in
      subst (λ t. contains (ids list) t ≡ true) e
        (contains_mem r list (All_at (λ r. Memᴰ r list) k.members m))

  -- A node of the knot cannot come next while none of the knot is done.
  knot_not_next :
      (done : List String) (x : Resolved)
      → Memᴰ x list
      → ((s : String) → contains (ids knot) s ≡ true → contains done s ≡ false)
      → DepsDone (ids list) done x.depends_on
      → contains (ids knot) x.node_id ≡ true
      → ⊥
  knot_not_next done x m u h e =
      let (q, n, p) = named_in knot x.node_id e in
      let same = same_name list q x unique (All_at (λ r. Memᴰ r list) k.members n) m p in
      dep_undone (ids list) done (ids knot) x.depends_on knot_known u
        (subst (λ r. any (contains (ids knot)) r.depends_on ≡ true) same
          (All_at (λ r. any (contains (ids knot)) r.depends_on ≡ true) k.blocked n))
        h

  other_name :
      (x : Resolved) (s : String)
      → contains (ids knot) x.node_id ≡ false
      → contains (ids knot) s ≡ true
      → (x.node_id == s) ≡ false
  other_name x s n h = elim (Bool-cases (x.node_id == s)) [
    | inl e ↦ cc (n, h, ap (contains (ids knot)) (eq_of_== x.node_id s e))
    | inr e ↦ e
  ]

  knot_unreached :
      (out : List Resolved) (done : List String)
      → IsOrdered (ids list) done out
      → All (λ r. Memᴰ r list) out
      → ((s : String) → contains (ids knot) s ≡ true → contains done s ≡ false)
      → (s : String) → contains (ids knot) s ≡ true
      → contains (ids out) s ≡ false
  knot_unreached [] done o m u s h = refl
  knot_unreached (x ∷ xs) done o m u s h = elim (Bool-cases (contains (ids knot) x.node_id)) [
    | inl e ↦ absurd (knot_not_next done x m.0 u o.0 e)
    | inr n ↦ ground (
      arith,
      other_name x s n h,
      knot_unreached xs (x.node_id ∷ done) o.1 m.1
          (λ t g. ground (arith, other_name x t n g, u t g)) s h,
    )
  ]

first_name : (rs : List Resolved) → 0 < length rs → (s : String) × (contains (ids rs) s ≡ true)
first_name [] h = absurd (omega arith)
first_name (r ∷ rs) h = (r.node_id, ground (arith, ==-refl r.node_id))

-- No arrangement of the nodes is a setup order when some of them depend on one another in a
-- circle.
pub knot-no-order :
    (list knot out : List Resolved)
    → Distinct (ids list)
    → IsKnot list knot
    → ¬ IsSetupOrder list out
knot-no-order list knot out unique k o =
    let (s, h) = first_name knot k.inhabited in
    let (r, m, e) = named_in list s (knot_known list knot unique k s h) in
    let done = All_at (λ r. contains (ids out) r.node_id ≡ true) o.complete m in
    cc (
      knot_unreached list knot unique k out [] o.order o.members (λ t g. refl) s h,
      ap (contains (ids out)) e,
      done,
    )
