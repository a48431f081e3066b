-- ===== src/Completion/Leaf.antt =====
-- The leaves of a completion predicate (app/internal/task/donewhen.go, `DoneWhenLeaf` of
-- app/internal/config/workflow.go).
use plecture.Base.{
  String, ℕ, Bool, true, false, not, List, [], ◌∷◌, Option, none, some, if◌then◌else◌, ◌==◌, any,
}
use plecture.Completion.Judge.{
  DoneStatus, pending, satisfied, unsatisfied, Context, JudgeResult, eval_judge_leaf,
}

-- What Go's libraries, the expression language and the numbers of the outputs provide: `V` is any value,
-- `F` is float64, `at_most` its order; `trim` is `strings.TrimSpace`, `segments` is
-- `strings.Split(path, ".")`, `index_id` is `fmt.Sprintf("judge:%d", i)`, `text` is `toString`,
-- `number` is `toFloat`; `normalized` is `orEmpty(normalizeOutputs(m))` with the absent keys and
-- the nil values read as absent; `predicate` evaluates an expression to a value, and `held` is the
-- Boolean that a value is.
pub record Runtime (V F : Type 0) : Type 1 where
  pub trim : String → String
  pub segments : String → List String
  pub index_id : ℕ → String
  pub text : V → String
  pub number : V → Option F
  pub at_most : F → F → Bool
  pub normalized : (String → Option V) → String → Option V
  pub predicate : String → (String → Option V) → (String → Option V) → Option V
  pub held : V → Option Bool

-- `DoneWhenLeaf`.
pub record DoneWhenLeaf (V F : Type 0) : Type 0 where
  pub check : String
  pub eq : Option String
  pub ne : Option String
  pub in_list : Option (List V)
  pub gte : Option F
  pub lte : Option F
  pub expr : String
  pub judge : String
  pub id : String
  pub relation : List String

-- `CompletionState`: the two live roots, read by key.
pub record CompletionState (V : Type 0) : Type 0 where
  pub resource : String → Option V
  pub self : String → Option V

abbrev pub bool_status : Bool → DoneStatus
bool_status true = satisfied
bool_status false = unsatisfied

-- The kinds of leaves; for an expression, its reason for pending.
pub data LeafKind : Type 0 where
  check_leaf : LeafKind
  expr_leaf : String → LeafKind
  judge_leaf : JudgeResult → LeafKind

-- `DoneLeafResult`, less the renderings for display.
pub record LeafResult : Type 0 where
  pub kind : LeafKind
  pub status : DoneStatus
  pub observed : Bool

module _ {V F : Type 0} (go : Runtime V F) where
  -- `IsCheck`, `IsJudge`, `IsExpr`.
  abbrev pub is_judge : DoneWhenLeaf V F → Bool
  is_judge leaf = not (go.trim leaf.judge == "")

  abbrev pub is_expr : DoneWhenLeaf V F → Bool
  is_expr leaf = not (go.trim leaf.expr == "")

  -- `splitCompletionKey`.
  abbrev pub split_completion_key : String → Option (String × String)
  split_completion_key path = elim (go.segments path) [
    | [] ↦ none
    | a ∷ rest ↦ elim rest [
      | [] ↦ none
      | b ∷ rest ↦ elim rest [
        | [] ↦ none
        | c ∷ rest ↦ elim rest [ [] ↦ if b == "state" then some (a, c) else none | d ∷ more ↦ none ]
      ]
    ]
  ]

  -- `CompletionState.Lookup`.
  abbrev pub find_value : CompletionState V → String → Option V
  find_value state path = elim (split_completion_key path) [
    | none ↦ none
    | some (root, key) ↦
        if root == "resource"
        then state.resource key
        else if root == "self"
        then state.self key
        else none
  ]

  abbrev pub normalize : CompletionState V → CompletionState V
  normalize state = record {
    resource = go.normalized state.resource;
    self = go.normalized state.self;
  }

  abbrev pub compare_number : (F → Bool) → V → DoneStatus
  compare_number test v = elim (go.number v) [ none ↦ unsatisfied | some f ↦ bool_status (test f) ]

  -- The operator of the leaf, on the value that it names.
  pub compare_value : DoneWhenLeaf V F → V → DoneStatus
  compare_value leaf v = elim leaf.eq [
    | some s ↦ bool_status (go.text v == s)
    | none ↦ elim leaf.ne [
      | some s ↦ bool_status (not (go.text v == s))
      | none ↦ elim leaf.in_list [
        | some items ↦ bool_status (any (λ item. go.text item == go.text v) items)
        | none ↦ elim leaf.gte [
          | some bound ↦ compare_number (λ f. go.at_most bound f) v
          | none ↦ elim leaf.lte [
            | some bound ↦ compare_number (λ f. go.at_most f bound) v
            | none ↦ pending
          ]
        ]
      ]
    ]
  ]

  pub eval_check_leaf : DoneWhenLeaf V F → CompletionState V → DoneStatus
  unfolding compare_value
  eval_check_leaf leaf state = elim (find_value state leaf.check) [
    | none ↦ pending
    | some v ↦ compare_value leaf v
  ]

  pub eval_expr_leaf : DoneWhenLeaf V F → CompletionState V → LeafResult
  eval_expr_leaf leaf state =
      let stuck : String → LeafResult =
        λ reason. record { kind = expr_leaf reason; status = pending; observed = false } in
      elim (go.predicate leaf.expr state.resource state.self) [
        | none ↦ stuck "unevaluable_expression"
        | some v ↦ elim (go.held v) [
          | none ↦ stuck "non_boolean_expression"
          | some b ↦ record { kind = expr_leaf ""; status = bool_status b; observed = true }
        ]
      ]

  -- `JudgeLeafID`.
  abbrev pub judge_leaf_id : ℕ → DoneWhenLeaf V F → String
  judge_leaf_id i leaf = if go.trim leaf.id == "" then go.index_id i else go.trim leaf.id

  -- One round of the loop of `EvaluateTaskDoneWhenWithContext`.
  unfoldable pub eval_leaf : ℕ → DoneWhenLeaf V F → CompletionState V → Context → LeafResult
  unfolding eval_judge_leaf eval_expr_leaf eval_check_leaf
  eval_leaf i leaf state ctx =
      let verdict = eval_judge_leaf (judge_leaf_id i leaf) leaf.relation ctx in
      if is_judge leaf
      then record { kind = judge_leaf verdict; status = verdict.status; observed = false }
      else if is_expr leaf
      then eval_expr_leaf leaf state
      else record {
        kind = check_leaf;
        status = eval_check_leaf leaf state;
        observed = elim (find_value state leaf.check) [ none ↦ false | some v ↦ true ];
      }

  -- `CheckLeafStatus`.
  unfoldable pub check_leaf_status : DoneWhenLeaf V F → CompletionState V → DoneStatus
  unfolding eval_expr_leaf eval_check_leaf
  check_leaf_status leaf state =
      if is_expr leaf
      then (eval_expr_leaf leaf (normalize state)).status
      else eval_check_leaf leaf (normalize state)
