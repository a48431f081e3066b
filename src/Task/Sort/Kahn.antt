-- ===== src/Task/Sort/Kahn.antt =====
-- The loop invariant of the sort, and what one run of the loop leaves.
use mathlib.Core.List.{Memᴰ}
use plecture.Base.{
  String, ℕ, ◌+◌, ◌≡◌, ◌∙◌, ap, true, false, ◌||◌, List, [], ◌∷◌, ◌++◌, arith, ◌==◌, eqb, ltb,
  contains, Distinct, All, All-map, All-filter, All_at, All_both, All-append, All-mem, filter,
  length, count, Distinct-append, contains-append, ==-refl,
}
use plecture.Base.Int.{pos}
use plecture.Task.Node.{Resolved, ids}
use plecture.Task.Sort.{Indegrees, relax_nodes}
use plecture.Task.Sort.Names.{
  ids-append, ids-filter-Distinct, ids-filter_all, ids_other, contains_mem, All-ids,
}
use plecture.Task.Sort.Counts.{slots, open_slots, open_slots-cons}
use plecture.Task.Sort.Relax.{frees, Before, relax_nodes-counts, relax_nodes-ready}

abbrev pub open_of : List Resolved → List String → Resolved → ℕ
open_of list done r = open_slots (ids list) done r.depends_on

-- The nodes that wait for another node of the list.
abbrev pub waiting : List Resolved → List String → ℕ
waiting list done = count (λ r. ltb 0 (open_of list done r)) list

pub record Inv (list : List Resolved) (done : List String) (indeg : Indegrees)
    (ready : List Resolved) : Type 0 where
  pub counts : All (λ r. indeg r.node_id ≡ pos (open_of list done r)) list
  pub taken :
      All
        (λ r.
          eqb (open_of list done r) 0 ≡ (contains done r.node_id || contains (ids ready) r.node_id))
        list
  pub fresh : All (λ r. contains done r.node_id ≡ false) ready
  pub distinct : Distinct (ids ready)
  pub members : All (λ r. Memᴰ r list) ready

-- Taking `c` splits the slots of every node.
slots_split :
    (list : List Resolved) (done : List String) (c : String)
    → contains (ids list) c ≡ true
    → contains done c ≡ false
    → (r : Resolved) → open_of list done r ≡ slots c r.depends_on + open_of list (c ∷ done) r
slots_split list done c p q r = open_slots-cons (ids list) done c r.depends_on p q

pub waiting_split :
    (list rs : List Resolved) (done : List String) (c : String)
    → contains (ids list) c ≡ true
    → contains done c ≡ false
    → count (λ r. ltb 0 (open_of list done r)) rs
      ≡ length (filter (frees c (open_of list (c ∷ done))) rs)
        + count (λ r. ltb 0 (open_of list (c ∷ done) r)) rs
waiting_split list [] done c p q = omega arith
waiting_split list (r ∷ rs) done c p q =
    ground (arith, slots_split list done c p q r, waiting_split list rs done c p q)

module _ (list : List Resolved) (done : List String) (indeg : Indegrees) (cur : Resolved)
    (ready : List Resolved) (unique : Distinct (ids list))
    (inv : Inv list done indeg (cur ∷ ready)) where
  abbrev pub c : String
  c = cur.node_id

  abbrev pub freed_now : List Resolved
  freed_now = filter (frees c (open_of list (c ∷ done))) list

  pub cur_known : contains (ids list) c ≡ true
  cur_known = contains_mem cur list inv.members.0

  splits : (r : Resolved) → open_of list done r ≡ slots c r.depends_on + open_of list (c ∷ done) r
  splits = slots_split list done c cur_known inv.fresh.0

  before : Before c (open_of list (c ∷ done)) indeg list
  before = All-map (λ r h. h ∙ ap pos (splits r)) list inv.counts

  pub next_ready : (relax_nodes c list indeg ready).1 ≡ ready ++ freed_now
  next_ready = relax_nodes-ready c (open_of list (c ∷ done)) list indeg ready unique before

  -- What was open and is freed now was not taken before.
  freed_untaken :
      (r : Resolved)
      → eqb (open_of list done r) 0
        ≡ (contains done r.node_id || contains (ids (cur ∷ ready)) r.node_id)
      → frees c (open_of list (c ∷ done)) r ≡ true
      → (contains (c ∷ done) r.node_id ≡ false) × (contains (ids ready) r.node_id ≡ false)
  freed_untaken r t f = ground (arith, splits r)

  still_taken :
      (r : Resolved)
      → eqb (open_of list done r) 0
        ≡ (contains done r.node_id || contains (ids (cur ∷ ready)) r.node_id)
      → contains (ids freed_now) r.node_id ≡ frees c (open_of list (c ∷ done)) r
      → eqb (open_of list (c ∷ done) r) 0
        ≡ (contains (c ∷ done) r.node_id || contains (ids (ready ++ freed_now)) r.node_id)
  still_taken r t f =
      rw (ids-append ready freed_now, contains-append (ids ready) (ids freed_now) r.node_id, f)
        (ground (arith, splits r))

  next_ready-fresh : All (λ r. contains (c ∷ done) r.node_id ≡ false) (ready ++ freed_now)
  next_ready-fresh =
      All-append (λ r. contains (c ∷ done) r.node_id ≡ false) ready freed_now
        (All-map (λ r h. old r h.0 h.1) ready
          (All_both _ _ ready inv.fresh.1 (ids_other c ready inv.distinct.0)))
        (All-filter (frees c (open_of list (c ∷ done))) (λ r t f. (freed_untaken r t f).0) list
          inv.taken)
    where
      old :
          (r : Resolved)
          → contains done r.node_id ≡ false
          → (c == r.node_id) ≡ false
          → contains (c ∷ done) r.node_id ≡ false
      old r h k = ground arith

  freed-away : All (λ y. contains (ids ready) y ≡ false) (ids freed_now)
  freed-away =
      All-ids (λ y. contains (ids ready) y ≡ false) freed_now
        (All-filter (frees c (open_of list (c ∷ done))) (λ r t f. (freed_untaken r t f).1) list
          inv.taken)

  -- One round of the loop keeps the invariant.
  pub round : Inv list (c ∷ done) (relax_nodes c list indeg ready).0 (ready ++ freed_now)
  round = record {
    counts = relax_nodes-counts c (open_of list (c ∷ done)) list indeg ready unique before;
    taken =
        All-map (λ r h. still_taken r h.0 h.1) list
          (All_both _ _ list inv.taken
            (ids-filter_all (frees c (open_of list (c ∷ done))) list unique));
    fresh = next_ready-fresh;
    distinct = rw (ids-append ready freed_now) (
        Distinct-append (ids ready) (ids freed_now) inv.distinct.1
          (ids-filter-Distinct (frees c (open_of list (c ∷ done))) list unique) freed-away);
    members =
        All-append (λ r. Memᴰ r list) ready freed_now inv.members.1
          (All-filter (frees c (open_of list (c ∷ done))) (λ r m f. m) list (All-mem list));
  }

  -- The node that is taken waits for nothing.
  pub cur_closed : open_of list done cur ≡ 0
  cur_closed =
      let t =
        All_at
          (λ r.
            eqb (open_of list done r) 0
            ≡ (contains done r.node_id || contains (ids (cur ∷ ready)) r.node_id))
          inv.taken inv.members.0 in
      ground (arith, ==-refl c)
