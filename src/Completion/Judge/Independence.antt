-- ===== src/Completion/Judge/Independence.antt =====
-- The verdicts that decide a judge leaf.
use text.Mathlib.TextEquality.{eq_iff}
use plecture.Base.{
  String, ◌≡◌, refl, ap, ◌↔◌, inl, inr, ◌≢◌, true, false, not, ◌&&◌, List, [], ◌∷◌, Option, none,
  some, arith, if◌then◌else◌, ◌==◌, contains, Option-cases, Bool-cases,
}
use plecture.Completion.Judge.{
  pending, satisfied, unsatisfied, relation_self, judge_relation_accepted, Verdict, Context,
  eval_judge_leaf,
}

-- What a policy admits: the relations that it names, and siblings and parents where it names none.
abbrev pub admitted : List String → List String
admitted [] = "sibling" ∷ "parent" ∷ []
admitted (r ∷ rs) = r ∷ rs

judge_relation_accepted_lem :
    (accepted : List String) (rel : String)
    → judge_relation_accepted accepted rel
      ≡ (not (rel == "self") && not (rel == "") && contains (admitted accepted) rel)
unfolding judge_relation_accepted
judge_relation_accepted_lem [] rel = ground arith
judge_relation_accepted_lem (r ∷ rs) rel = ground arith

-- A verdict of another session, in an admitted relation, on the revision of now.
pub record IsIndependent (accepted : List String) (ctx : Context) (v : Verdict) : Type 0 where
  pub attributed : v.judge_session ≢ ""
  pub other_session : v.judge_session ≢ ctx.work_session
  pub other_relation : v.relation ≢ relation_self
  pub known_relation : v.relation ≢ ""
  pub admitted_relation : contains (admitted accepted) v.relation ≡ true
  pub known_revision : ctx.current_revision ≢ ""
  pub same_revision : v.revision ≡ ctx.current_revision

differ : (s t : String) → (s == t) ≡ false → s ≢ t
differ s t h e = cc (plecture.Base.==_of_eq s t e, h)

module _ (id : String) (accepted : List String) (ctx : Context) where
  accepts :
      (v : Verdict)
      → ctx.judges id ≡ some v
      → (eval_judge_leaf id accepted ctx).status ≢ pending
      → judge_relation_accepted accepted v.relation ≡ true
  unfolding eval_judge_leaf
  accepts v e h = elim (Bool-cases (judge_relation_accepted accepted v.relation)) [
    | inl y ↦ y
    | inr n ↦ absurd (h (rw (e, n, eval_judge_leaf) (ground arith)))
  ]

  is_independent :
      (v : Verdict)
      → ctx.judges id ≡ some v
      → (eval_judge_leaf id accepted ctx).status ≢ pending
      → IsIndependent accepted ctx v
  unfolding eval_judge_leaf
  is_independent v e h = record {
    attributed = λ p. h (ground (arith, eq_iff v.judge_session ""));
    other_session = λ p. h (
        ground (
          arith,
          eq_iff v.judge_session ctx.work_session,
          eq_iff v.judge_session "",
          eq_iff ctx.work_session "",
        ));
    other_relation = λ p. h (ground (arith, eq_iff v.relation "self"));
    known_relation = λ p. absurd (
        ground (
          arith,
          accepts v e h,
          judge_relation_accepted_lem accepted v.relation,
          eq_iff v.relation "",
        ));
    admitted_relation =
        ground (arith, accepts v e h, judge_relation_accepted_lem accepted v.relation);
    known_revision = λ p. h (ground (arith, eq_iff ctx.current_revision ""));
    same_revision = elim (Bool-cases (v.revision == ctx.current_revision)) [
      | inl y ↦ plecture.Base.eq_of_== _ _ y
      | inr n ↦ absurd (h (rw (e, n, eval_judge_leaf) (ground arith)))
    ];
  }

  -- The other way: what an independent verdict decides.
  decides :
      (v : Verdict)
      → ctx.judges id ≡ some v
      → IsIndependent accepted ctx v
      → (eval_judge_leaf id accepted ctx).status ≡ (
          if v.action == "approve"
          then satisfied
          else if v.action == "request_changes"
          then unsatisfied
          else pending)
  unfolding eval_judge_leaf
  decides v e i = ground (
    arith,
    e,
    eq_iff v.judge_session "",
    eq_iff v.judge_session ctx.work_session,
    eq_iff v.relation "self",
    eq_iff ctx.current_revision "",
    eq_iff v.revision ctx.current_revision,
    i.attributed,
    i.other_session,
    i.other_relation,
    i.known_relation,
    i.admitted_relation,
    judge_relation_accepted_lem accepted v.relation,
    eq_iff v.relation "",
    i.known_revision,
    i.same_revision,
  )

  -- A verdict that is found, is independent and has an action.
  abbrev pub Says : String → Type 0
  Says act =
      (v : Verdict) × (ctx.judges id ≡ some v) × IsIndependent accepted ctx v × (v.action ≡ act)

  no_verdict : ctx.judges id ≡ none → (eval_judge_leaf id accepted ctx).status ≡ pending
  unfolding eval_judge_leaf
  no_verdict e = ground arith

  -- A judge leaf is satisfied exactly by an approval, and unsatisfied exactly by a request for
  -- changes, that is attributed to another session than the worker's, was given in a relation that
  -- the leaf's policy names, or as a sibling or a parent where it names none, and that is not the session itself, and is about the revision of now, which is known.
  pub eval_judge_leaf-decides :
      ((eval_judge_leaf id accepted ctx).status ≡ satisfied ↔ Says "approve")
      × ((eval_judge_leaf id accepted ctx).status ≡ unsatisfied ↔ Says "request_changes")
  eval_judge_leaf-decides = (
    (
      λ h. elim (Option-cases (ctx.judges id)) [
        | inl e ↦ absurd (cc (no_verdict e, h))
        | inr (v, e) ↦
            let i = is_independent v e (λ p. cc (p, h)) in
            (v, e, i, ground (arith, decides v e i, h, eq_iff v.action "approve"))
      ],
      λ (v, e, i, a). ground (arith, decides v e i, a, eq_iff v.action "approve"),
    ),
    (
      λ h. elim (Option-cases (ctx.judges id)) [
        | inl e ↦ absurd (cc (no_verdict e, h))
        | inr (v, e) ↦
            let i = is_independent v e (λ p. cc (p, h)) in
            (v, e, i, ground (arith, decides v e i, h, eq_iff v.action "request_changes"))
      ],
      λ (v, e, i, a). asks v e i a,
    ),
  )
    where
      asks :
          (v : Verdict)
          → ctx.judges id ≡ some v
          → IsIndependent accepted ctx v
          → v.action ≡ "request_changes"
          → (eval_judge_leaf id accepted ctx).status ≡ unsatisfied
      asks v e i a = rw (decides v e i, a) refl
