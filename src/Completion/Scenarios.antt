-- ===== src/Completion/Scenarios.antt =====
-- Concrete predicates and verdicts.
use plecture.Base.{map, ℕ, ◌≡◌, refl, ◌↔◌, List, [], ◌∷◌, none, some, ◌==◌, leb, if◌then◌else◌}
use plecture.Completion.Judge.{satisfied, unsatisfied, Verdict, Context, eval_judge_leaf}
use plecture.Completion.Judge.Independence.{Says, eval_judge_leaf-decides}
use plecture.Completion.Leaf.{Runtime, DoneWhenLeaf, CompletionState, LeafResult, normalize}
use plecture.Completion.DoneWhen.{evaluated, evaluate_done_when}
use plecture.Completion.DoneWhen.Overall.{conjunction, statuses, evaluate_done_when_lem}

abbrev approval : Verdict
approval = record {
  action = "approve";
  reason = "done";
  revision = "r2";
  judge_session = "reviewer";
  judge_workflow = "review";
  relation = "sibling";
}

abbrev review : Context
review = record {
  work_session = "worker";
  current_revision = "r2";
  judges = λ id. if id == "ac" then some approval else none;
}

approved : (eval_judge_leaf "ac" [] review).status ≡ satisfied
unfolding eval_judge_leaf
approved = refl

stale :
    (eval_judge_leaf "ac" [] (record review { current_revision = "r3" })).pending_reason
    ≡ "stale_judge"
unfolding eval_judge_leaf
stale = refl

eval_judge_leaf-decides_example :
    ((eval_judge_leaf "ac" [] review).status ≡ satisfied ↔ Says "ac" [] review "approve")
    × ((eval_judge_leaf "ac" [] review).status ≡ unsatisfied
        ↔ Says "ac" [] review "request_changes")
eval_judge_leaf-decides_example = eval_judge_leaf-decides "ac" [] review

-- Values are numbers, and the only number with a text is 7.
abbrev plain : Runtime ℕ ℕ
plain = record {
  trim = λ s. s;
  segments = λ s. if s == "self.state.coverage" then "self" ∷ "state" ∷ "coverage" ∷ [] else [];
  index_id = λ i. "judge:0";
  text = λ v. "7";
  number = λ v. some v;
  at_most = leb;
  normalized = λ m. m;
  predicate = λ e r s. none;
  held = λ v. none;
}

abbrev coverage : DoneWhenLeaf ℕ ℕ
coverage = record {
  check = "self.state.coverage";
  eq = none;
  ne = none;
  in_list = none;
  gte = some 80;
  lte = none;
  expr = "";
  judge = "";
  id = "";
  relation = [];
}

abbrev reviewed : DoneWhenLeaf ℕ ℕ
reviewed = record coverage { judge = "AC satisfied"; id = "ac" }

abbrev measured : CompletionState ℕ
measured = record { resource = λ k. none; self = λ k. if k == "coverage" then some 81 else none }

evaluate_done_when_lem_example :
    (results : List LeafResult) × (map (λ r. r.status) results
      ≡ statuses plain 0 (coverage ∷ reviewed ∷ []) (normalize plain measured) review)
    × (evaluate_done_when plain (coverage ∷ reviewed ∷ []) measured review
        ≡ evaluated
            (conjunction
              (statuses plain 0 (coverage ∷ reviewed ∷ []) (normalize plain measured) review))
            results)
evaluate_done_when_lem_example =
    evaluate_done_when_lem plain coverage (reviewed ∷ []) measured review
