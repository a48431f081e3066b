-- ===== src/Completion/DoneWhen/Overall.antt =====
-- The overall status against the leaves.
use plecture.Base.{
  map, ℕ, suc, ◌≡◌, refl, ap, true, false, Bool, List, [], ◌∷◌, arith, if◌then◌else◌, ltb, eqb,
  length, all, any, count, count-le-length,
}
use plecture.Completion.Judge.{DoneStatus, pending, satisfied, unsatisfied, Context}
use plecture.Completion.Leaf.{
  Runtime, DoneWhenLeaf, CompletionState, LeafResult, normalize, eval_leaf,
}
use plecture.Completion.DoneWhen.{evaluated, Tally, tally, evaluate_leaves, evaluate_done_when}

abbrev pub holds : DoneStatus → Bool
holds satisfied = true
holds unsatisfied = false
holds pending = false

abbrev pub fails : DoneStatus → Bool
fails satisfied = false
fails unsatisfied = true
fails pending = false

-- The status that a conjunction of leaves should have.
abbrev pub conjunction : List DoneStatus → DoneStatus
conjunction statuses =
    if any fails statuses then unsatisfied else if all holds statuses then satisfied else pending

record Counted (t : Tally) (ss : List DoneStatus) : Type 0 where
  held : t.satisfied_count ≡ count holds ss
  failed : t.unsatisfied_count ≡ count fails ss
  size : length t.leaves ≡ length ss
  same : map (λ r. r.status) t.leaves ≡ ss

tally-Counted :
    (s : DoneStatus) (r : LeafResult) (t : Tally) (ss : List DoneStatus)
    → r.status ≡ s
    → Counted t ss
    → Counted (tally s r t) (s ∷ ss)
tally-Counted pending r t ss e c = record {
  held = c.held;
  failed = c.failed;
  size = ap suc c.size;
  same = cc (e, c.same);
}
tally-Counted satisfied r t ss e c = record {
  held = ap suc c.held;
  failed = c.failed;
  size = ap suc c.size;
  same = cc (e, c.same);
}
tally-Counted unsatisfied r t ss e c = record {
  held = c.held;
  failed = ap suc c.failed;
  size = ap suc c.size;
  same = cc (e, c.same);
}

module _ {V F : Type 0} (go : Runtime V F) where
  -- Each leaf's own status, at its place in the list.
  pub statuses : ℕ → List (DoneWhenLeaf V F) → CompletionState V → Context → List DoneStatus
  statuses i [] state ctx = []
  statuses i (leaf ∷ leaves) state ctx =
      (eval_leaf go i leaf state ctx).status ∷ statuses (suc i) leaves state ctx

  counted :
      (i : ℕ) (leaves : List (DoneWhenLeaf V F)) (state : CompletionState V) (ctx : Context)
      → Counted (evaluate_leaves go i leaves state ctx) (statuses i leaves state ctx)
  unfolding evaluate_leaves statuses
  counted i [] state ctx = record { held = refl; failed = refl; size = refl; same = refl }
  counted i (leaf ∷ leaves) state ctx =
      tally-Counted (eval_leaf go i leaf state ctx).status (eval_leaf go i leaf state ctx)
        (evaluate_leaves go (suc i) leaves state ctx) (statuses (suc i) leaves state ctx) refl
        (counted (suc i) leaves state ctx)

  count-any : (ss : List DoneStatus) → ltb 0 (count fails ss) ≡ any fails ss
  count-any [] = refl
  count-any (s ∷ ss) = ground (arith, count-any ss)

  count-all : (ss : List DoneStatus) → eqb (count holds ss) (length ss) ≡ all holds ss
  count-all [] = refl
  count-all (s ∷ ss) = ground (arith, count-all ss, count-le-length holds ss)

  -- The status of a predicate is unsatisfied if a leaf is, satisfied if every leaf is, and pending
  -- otherwise, and the results list the leaves' statuses in order, each leaf being evaluated at its
  -- place, on the normalized state.
  pub evaluate_done_when_lem :
      (leaf : DoneWhenLeaf V F) (leaves : List (DoneWhenLeaf V F)) (state : CompletionState V)
      (ctx : Context)
      → (results : List LeafResult) × (map (λ r. r.status) results
          ≡ statuses 0 (leaf ∷ leaves) (normalize go state) ctx)
        × (evaluate_done_when go (leaf ∷ leaves) state ctx
            ≡ evaluated (conjunction (statuses 0 (leaf ∷ leaves) (normalize go state) ctx)) results)
  unfolding evaluate_done_when
  evaluate_done_when_lem leaf leaves state ctx =
      let c = counted 0 (leaf ∷ leaves) (normalize go state) ctx in
      let ss = statuses 0 (leaf ∷ leaves) (normalize go state) ctx in
      let t = evaluate_leaves go 0 (leaf ∷ leaves) (normalize go state) ctx in
      (t.leaves, c.same, rw (c.held, c.failed, c.size, count-any ss, count-all ss) refl)
