-- ===== src/Completion/DoneWhen.antt =====
-- The evaluation of a whole predicate (`EvaluateTaskDoneWhenWithContext` of
-- app/internal/task/donewhen.go).
pub mod Overall
use plecture.Base.{
  String, ℕ, suc, Bool, true, false, List, [], ◌∷◌, if◌then◌else◌, ltb, eqb, length,
}
use plecture.Completion.Judge.{DoneStatus, pending, satisfied, unsatisfied, Context}
use plecture.Completion.Leaf.{
  Runtime, DoneWhenLeaf, CompletionState, LeafResult, normalize, eval_leaf,
}

-- `DoneWhenResult`; a predicate without leaves has no overall status.
pub data DoneWhenResult : Type 0 where
  no_leaves : DoneWhenResult
  evaluated : DoneStatus → List LeafResult → DoneWhenResult

-- The loop's counters and its results.
pub record Tally : Type 0 where
  pub satisfied_count : ℕ
  pub unsatisfied_count : ℕ
  pub leaves : List LeafResult

abbrev pub tally : DoneStatus → LeafResult → Tally → Tally
tally satisfied r t = record t { satisfied_count = suc t.satisfied_count; leaves = r ∷ t.leaves }
tally unsatisfied r t = record t {
  unsatisfied_count = suc t.unsatisfied_count;
  leaves = r ∷ t.leaves;
}
tally pending r t = record t { leaves = r ∷ t.leaves }

abbrev pub overall_status : Tally → DoneStatus
overall_status t =
    if ltb 0 t.unsatisfied_count
    then unsatisfied
    else if eqb t.satisfied_count (length t.leaves)
    then satisfied
    else pending

module _ {V F : Type 0} (go : Runtime V F) where
  pub evaluate_leaves : ℕ → List (DoneWhenLeaf V F) → CompletionState V → Context → Tally
  unfolding eval_leaf
  evaluate_leaves i [] state ctx = record {
    satisfied_count = 0;
    unsatisfied_count = 0;
    leaves = [];
  }
  evaluate_leaves i (leaf ∷ leaves) state ctx =
      let r = eval_leaf go i leaf state ctx in
      tally r.status r (evaluate_leaves (suc i) leaves state ctx)

  unfoldable pub evaluate_done_when :
      List (DoneWhenLeaf V F) → CompletionState V → Context → DoneWhenResult
  unfolding evaluate_leaves
  evaluate_done_when [] state ctx = no_leaves
  evaluate_done_when (leaf ∷ leaves) state ctx =
      let t = evaluate_leaves 0 (leaf ∷ leaves) (normalize go state) ctx in
      evaluated (overall_status t) t.leaves
