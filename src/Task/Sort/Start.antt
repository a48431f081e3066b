-- ===== src/Task/Sort/Start.antt =====
-- The counts that the sort starts from, and the invariant at the first round.
use text.Mathlib.TextEquality.{eq_iff}
use plecture.Base.{
  String, ℕ, suc, ◌+◌, ◌≡◌, refl, ap, inl, inr, false, ◌||◌, List, [], ◌∷◌, arith, ◌==◌,
  if◌then◌else◌, eqb, ltb, contains, Distinct, All, All-map, All-filter, All_both, All-mem, filter,
  length, count, Bool-cases, ==-refl, update,
}
use plecture.Base.Int.{ℤ, pos, incr, is_zero}
use plecture.Task.Node.{Resolved, ids}
use plecture.Task.Sort.{Indegrees, count_deps, count_nodes}
use plecture.Task.Sort.Names.{ids-filter-Distinct, ids-filter_all}
use plecture.Task.Sort.Counts.{open_slots}
use plecture.Task.Sort.Relax.{counts-keep}
use plecture.Task.Sort.Kahn.{open_of, waiting, Inv}

count_deps-indeg :
    (in_scope : List String) (id : String) (deps : List String) (indeg : Indegrees) (n : ℕ)
    → indeg id ≡ pos n
    → (j : String)
    → count_deps in_scope id deps indeg j
      ≡ (if j == id then pos (n + open_slots in_scope [] deps) else indeg j)
unfolding count_deps
count_deps-indeg in_scope id [] indeg n h j =
    ground (arith, eq_iff j id, λ (e : j ≡ id). ap indeg e)
count_deps-indeg in_scope id (d ∷ deps) indeg n h j = elim (Bool-cases (contains in_scope d)) [
  | inl e ↦
      let h' : update indeg id (incr (indeg id)) id ≡ pos (suc n) = rw (==-refl id) (ap incr h) in
      rw (e, count_deps)
        (ground (
          arith,
          count_deps-indeg in_scope id deps (update indeg id (incr (indeg id))) (suc n) h' j,
        ))
  | inr e ↦ rw (e, count_deps) (ground (arith, count_deps-indeg in_scope id deps indeg n h j))
]

zero-keep :
    {f g : Indegrees} (id : String) (rs : List Resolved)
    → contains (ids rs) id ≡ false
    → ((j : String) → (j == id) ≡ false → g j ≡ f j)
    → All (λ r. f r.node_id ≡ pos 0) rs
    → All (λ r. g r.node_id ≡ pos 0) rs
zero-keep id rs h k a = counts-keep (λ _. 0) id rs h k a

module _ (in_scope : List String) where
  count_nodes-other :
      (rs : List Resolved) (indeg : Indegrees)
      → Distinct (ids rs)
      → All (λ r. indeg r.node_id ≡ pos 0) rs
      → (j : String) → contains (ids rs) j ≡ false
      → count_nodes in_scope rs indeg j ≡ indeg j
  unfolding count_nodes
  count_nodes-other [] indeg d z j h = refl
  count_nodes-other (r ∷ rs) indeg d z j h =
      let next = count_deps in_scope r.node_id r.depends_on indeg in
      let head = count_deps-indeg in_scope r.node_id r.depends_on indeg 0 z.0 in
      ground (
        arith,
        eq_iff j r.node_id,
        eq_iff r.node_id j,
        head j,
        count_nodes-other rs next d.1 (zero-keep r.node_id rs d.0 (λ i e. rw e at (head i)) z.1) j,
      )

  count_nodes-counts :
      (rs : List Resolved) (indeg : Indegrees)
      → Distinct (ids rs)
      → All (λ r. indeg r.node_id ≡ pos 0) rs
      → All
          (λ r. count_nodes in_scope rs indeg r.node_id ≡ pos (open_slots in_scope [] r.depends_on))
          rs
  unfolding count_nodes
  count_nodes-counts [] indeg d z = tt
  count_nodes-counts (r ∷ rs) indeg d z =
      let next = count_deps in_scope r.node_id r.depends_on indeg in
      let head = count_deps-indeg in_scope r.node_id r.depends_on indeg 0 z.0 in
      let later = zero-keep r.node_id rs d.0 (λ i e. rw e at (head i)) z.1 in
      (
        ground (
          arith,
          ==-refl r.node_id,
          head r.node_id,
          count_nodes-other rs next d.1 later r.node_id d.0,
        ),
        count_nodes-counts rs next d.1 later,
      )

all_zero : (rs : List Resolved) → All (λ r. ◌≡◌ {A = ℤ} (pos 0) (pos 0)) rs
all_zero [] = tt
all_zero (r ∷ rs) = (refl, all_zero rs)

no_nodes_taken : (rs : List Resolved) → All (λ r. contains [] r.node_id ≡ false) rs
no_nodes_taken [] = tt
no_nodes_taken (r ∷ rs) = (refl, no_nodes_taken rs)

module _ (list : List Resolved) (unique : Distinct (ids list)) where
  abbrev pub start : Indegrees
  start = count_nodes (ids list) list (λ _. pos 0)

  abbrev pub first_ready : List Resolved
  first_ready = filter (λ r. is_zero (start r.node_id)) list

  start_counts : All (λ r. start r.node_id ≡ pos (open_of list [] r)) list
  start_counts = count_nodes-counts (ids list) list (λ _. pos 0) unique (all_zero list)

  pub start-Inv : Inv list [] start first_ready
  start-Inv = record {
    counts = start_counts;
    taken =
        All-map (λ r h. taken_by r h.0 h.1) list
          (All_both _ _ list start_counts
            (ids-filter_all (λ r. is_zero (start r.node_id)) list unique));
    fresh = no_nodes_taken first_ready;
    distinct = ids-filter-Distinct (λ r. is_zero (start r.node_id)) list unique;
    members = All-filter (λ r. is_zero (start r.node_id)) (λ r m f. m) list (All-mem list);
  }
    where
      taken_by :
          (r : Resolved)
          → start r.node_id ≡ pos (open_of list [] r)
          → contains (ids first_ready) r.node_id ≡ is_zero (start r.node_id)
          → eqb (open_of list [] r) 0
            ≡ (contains [] r.node_id || contains (ids first_ready) r.node_id)
      taken_by r h k = ground arith

  first_waiting :
      (rs : List Resolved)
      → All (λ r. start r.node_id ≡ pos (open_of list [] r)) rs
      → length (filter (λ r. is_zero (start r.node_id)) rs)
          + count (λ r. ltb 0 (open_of list [] r)) rs
        ≡ length rs
  first_waiting [] h = refl
  first_waiting (r ∷ rs) h = ground (arith, first_waiting rs h.1)

  -- Every node is ready at first or waits.
  pub start_total : length first_ready + waiting list [] ≡ length list
  start_total = first_waiting list start_counts
