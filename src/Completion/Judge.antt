-- ===== src/Completion/Judge.antt =====
-- Which verdicts count: the relation policy of app/internal/domain/session.go, and `evalJudgeLeaf`
-- of app/internal/task/donewhen.go.
pub mod Independence
use plecture.Base.{
  String, ℕ, Bool, true, false, not, ◌&&◌, ◌||◌, List, [], ◌∷◌, Option, none, some, map,
  if◌then◌else◌, ◌==◌, contains,
}

pub data DoneStatus : Type 0 where
  pending satisfied unsatisfied : DoneStatus

-- The relations are texts in the source, and any text may be stored in a verdict.
abbrev pub relation_self : String
relation_self = "self"

abbrev pub relation_parent : String
relation_parent = "parent"

abbrev pub relation_child : String
relation_child = "child"

abbrev pub relation_sibling : String
relation_sibling = "sibling"

pub default_judge_relations : List String
default_judge_relations = relation_sibling ∷ relation_parent ∷ []

abbrev pub assignable_judge_relation : String → Bool
assignable_judge_relation r = r == relation_parent || r == relation_child || r == relation_sibling

-- `JudgeRelationAccepted`; the empty policy is the default one.
pub judge_relation_accepted : List String → String → Bool
unfolding default_judge_relations
judge_relation_accepted accepted rel =
    if rel == relation_self || rel == "" then false else elim accepted [
      | [] ↦ contains default_judge_relations rel
      | r ∷ rs ↦ contains (r ∷ rs) rel
    ]

-- `task.Judge`.
pub record Verdict : Type 0 where
  pub action : String
  pub reason : String
  pub revision : String
  pub judge_session : String
  pub judge_workflow : String
  pub relation : String

-- `DoneWhenEvalContext`; the verdicts are found by the leaf's id.
pub record Context : Type 0 where
  pub work_session : String
  pub current_revision : String
  pub judges : String → Option Verdict

-- The part of `DoneLeafResult` that a judge leaf fills in beside its rendering: the status, the
-- reason for pending, and the verdict that was found.
pub record JudgeResult : Type 0 where
  pub id : String
  pub status : DoneStatus
  pub pending_reason : String
  pub verdict : Option Verdict

abbrev judged : String → Verdict → DoneStatus → String → JudgeResult
judged id v status reason = record {
  id = id;
  status = status;
  pending_reason = reason;
  verdict = some v;
}

-- `evalJudgeLeaf` for the leaf with this id and relation policy.
unfoldable pub eval_judge_leaf : String → List String → Context → JudgeResult
unfolding judge_relation_accepted
eval_judge_leaf id accepted ctx = elim (ctx.judges id) [
  | none ↦ record { id = id; status = pending; pending_reason = "missing_judge"; verdict = none }
  | some v ↦
      if v.judge_session == ""
        || v.relation == relation_self
        || (not (ctx.work_session == "") && v.judge_session == ctx.work_session)
      then judged id v pending "self_review"
      else if not (judge_relation_accepted accepted v.relation)
      then judged id v pending "relation_not_accepted"
      else if ctx.current_revision == ""
      then judged id v pending "missing_current_revision"
      else if not (v.revision == ctx.current_revision)
      then judged id v pending "stale_judge"
      else if v.action == "approve"
      then judged id v satisfied ""
      else if v.action == "request_changes"
      then judged id v unsatisfied ""
      else judged id v pending "unknown_judge"
]
