-- ===== src/Task/Sort/Relax.antt =====
-- What one round of the sort does to the counts and to the ready list.
use plecture.Base.{
  String, ℕ, suc, ◌+◌, ◌≡◌, refl, sym, ap, inl, inr, Bool, false, ◌&&◌, List, [], ◌∷◌, ◌++◌, arith,
  ◌==◌, if◌then◌else◌, eqb, ltb, contains, Distinct, All, filter, ==-refl, Bool-cases,
}
use mathlib.Core.List.{append-nil, append_assoc}
use text.Mathlib.TextEquality.{eq_iff}
use plecture.Base.Int.{pos, decr}
use plecture.Task.Node.{Resolved, ids}
use plecture.Task.Sort.{Indegrees, release, relax_deps, relax_nodes}
use plecture.Task.Sort.Counts.{slots}

-- A node becomes ready in the round of `cur` if that closes its last open slots.
abbrev pub freed : ℕ → ℕ → Bool
freed closed left = ltb 0 closed && eqb left 0

-- The count and the ready list after one decrement of a count that is not yet 0.
release_count :
    (r : Resolved) (indeg : Indegrees) (ready : List Resolved) (n : ℕ)
    → indeg r.node_id ≡ pos (suc n)
    → (release r indeg ready).0 r.node_id ≡ pos n
unfolding release
release_count r indeg ready n h = rw (==-refl r.node_id) (ap decr h)

release_other :
    (r : Resolved) (indeg : Indegrees) (ready : List Resolved) (j : String)
    → (j == r.node_id) ≡ false
    → (release r indeg ready).0 j ≡ indeg j
unfolding release
release_other r indeg ready j h = rw h

release_ready :
    (r : Resolved) (indeg : Indegrees) (ready : List Resolved) (n : ℕ)
    → indeg r.node_id ≡ pos (suc n)
    → (release r indeg ready).1 ≡ ready ++ (if eqb n 0 then r ∷ [] else [])
unfolding release
release_ready r indeg ready n h = ground (arith, append-nil ready)

module _ (cur : String) (r : Resolved) where
  -- The counts of one node after its slots that name `cur` are closed.
  relax_deps-indeg :
      (deps : List String) (indeg : Indegrees) (ready : List Resolved) (left : ℕ)
      → indeg r.node_id ≡ pos (slots cur deps + left)
      → (j : String)
      → (relax_deps cur r deps indeg ready).0 j ≡ (if j == r.node_id then pos left else indeg j)
  unfolding relax_deps
  relax_deps-indeg [] indeg ready left h j =
      ground (arith, eq_iff j r.node_id, λ (e : j ≡ r.node_id). ap indeg e)
  relax_deps-indeg (d ∷ deps) indeg ready left h j = elim (Bool-cases (d == cur)) [
    | inl e ↦
        let h' : indeg r.node_id ≡ pos (suc (slots cur deps + left)) = ground (arith, e) in
        rw (e, relax_deps)
          (ground (
            arith,
            relax_deps-indeg deps (release r indeg ready).0 (release r indeg ready).1 left
                (release_count r indeg ready (slots cur deps + left) h') j,
            release_other r indeg ready j,
          ))
    | inr e ↦ rw (e, relax_deps) (relax_deps-indeg deps indeg ready left (rw e at h) j)
  ]

  relax_deps-ready :
      (deps : List String) (indeg : Indegrees) (ready : List Resolved) (left : ℕ)
      → indeg r.node_id ≡ pos (slots cur deps + left)
      → (relax_deps cur r deps indeg ready).1
        ≡ ready ++ (if freed (slots cur deps) left then r ∷ [] else [])
  unfolding relax_deps
  relax_deps-ready [] indeg ready left h = sym (append-nil ready)
  relax_deps-ready (d ∷ deps) indeg ready left h = elim (Bool-cases (d == cur)) [
    | inl e ↦
        let h' : indeg r.node_id ≡ pos (suc (slots cur deps + left)) = ground (arith, e) in
        rw (e, relax_deps)
          (ground (
            arith,
            relax_deps-ready deps (release r indeg ready).0 (release r indeg ready).1 left
                (release_count r indeg ready (slots cur deps + left) h'),
            release_ready r indeg ready (slots cur deps + left) h',
            append-nil ready,
            append-nil (ready ++ r ∷ []),
          ))
    | inr e ↦ rw (e, relax_deps) (relax_deps-ready deps indeg ready left (rw e at h))
  ]

-- The counts of the later nodes are not touched by the round of an earlier one.
pub counts-keep :
    {f g : Indegrees} (h : Resolved → ℕ) (id : String) (rs : List Resolved)
    → contains (ids rs) id ≡ false
    → ((j : String) → (j == id) ≡ false → g j ≡ f j)
    → All (λ r. f r.node_id ≡ pos (h r)) rs
    → All (λ r. g r.node_id ≡ pos (h r)) rs
counts-keep h id [] d k a = tt
counts-keep h id (r ∷ rs) d k a =
    (ground (arith, k r.node_id), counts-keep h id rs (ground arith) k a.1)

module _ (cur : String) (left : Resolved → ℕ) where
  abbrev pub Before : Indegrees → List Resolved → Type 0
  Before indeg = All (λ r. indeg r.node_id ≡ pos (slots cur r.depends_on + left r))

  abbrev pub frees : Resolved → Bool
  frees r = freed (slots cur r.depends_on) (left r)

  after_head :
      (r : Resolved) (rs : List Resolved) (indeg : Indegrees) (ready : List Resolved)
      → Distinct (ids (r ∷ rs))
      → Before indeg (r ∷ rs)
      → Before (relax_deps cur r r.depends_on indeg ready).0 rs
  after_head r rs indeg ready d b =
      counts-keep (λ q. slots cur q.depends_on + left q) r.node_id rs d.0
        (λ j h. rw h at (relax_deps-indeg cur r r.depends_on indeg ready (left r) b.0 j)) b.1

  pub relax_nodes-other :
      (rs : List Resolved) (indeg : Indegrees) (ready : List Resolved)
      → Distinct (ids rs)
      → Before indeg rs
      → (j : String) → contains (ids rs) j ≡ false
      → (relax_nodes cur rs indeg ready).0 j ≡ indeg j
  unfolding relax_nodes
  relax_nodes-other [] indeg ready d b j h = refl
  relax_nodes-other (r ∷ rs) indeg ready d b j h =
      let next = relax_deps cur r r.depends_on indeg ready in
      ground (
        arith,
        eq_iff j r.node_id,
        eq_iff r.node_id j,
        relax_deps-indeg cur r r.depends_on indeg ready (left r) b.0 j,
        relax_nodes-other rs next.0 next.1 d.1 (after_head r rs indeg ready d b) j,
      )

  pub relax_nodes-counts :
      (rs : List Resolved) (indeg : Indegrees) (ready : List Resolved)
      → Distinct (ids rs)
      → Before indeg rs
      → All (λ r. (relax_nodes cur rs indeg ready).0 r.node_id ≡ pos (left r)) rs
  unfolding relax_nodes
  relax_nodes-counts [] indeg ready d b = tt
  relax_nodes-counts (r ∷ rs) indeg ready d b =
      let next = relax_deps cur r r.depends_on indeg ready in
      let later = after_head r rs indeg ready d b in
      (
        ground (
          arith,
          ==-refl r.node_id,
          relax_deps-indeg cur r r.depends_on indeg ready (left r) b.0 r.node_id,
          relax_nodes-other rs next.0 next.1 d.1 later r.node_id d.0,
        ),
        relax_nodes-counts rs next.0 next.1 d.1 later,
      )

  pub relax_nodes-ready :
      (rs : List Resolved) (indeg : Indegrees) (ready : List Resolved)
      → Distinct (ids rs)
      → Before indeg rs
      → (relax_nodes cur rs indeg ready).1 ≡ ready ++ filter frees rs
  unfolding relax_nodes
  relax_nodes-ready [] indeg ready d b = sym (append-nil ready)
  relax_nodes-ready (r ∷ rs) indeg ready d b =
      let next = relax_deps cur r r.depends_on indeg ready in
      ground (
        arith,
        relax_deps-ready cur r r.depends_on indeg ready (left r) b.0,
        relax_nodes-ready rs next.0 next.1 d.1 (after_head r rs indeg ready d b),
        append-nil ready,
        append_assoc ready (r ∷ []) (filter frees rs),
      )
