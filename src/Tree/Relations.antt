-- ===== src/Tree/Relations.antt =====
-- The relations and the subtree, by the ancestors.
use text.Mathlib.TextEquality.{eq_iff}
use plecture.Base.{
  String, ◌≡◌, ◌≢◌, subst, ◌↔◌, refl, sym, ap, ◌⊎◌, inl, inr, Bool, true, false, not, ◌&&◌, ◌||◌,
  List, [], ◌∷◌, some, arith, ◌==◌, lookup, contains, keys, Bool-cases, Option-cases, eq_of_==,
}
use plecture.Base.Order.{text_ltb, insert_by, sort_by}
use plecture.Tree.{
  Session, Sessions, SessionRelation, implicit_root_parent, effective_parent, members_below,
  is_ancestor, subtree, relation_from_target,
}
use plecture.Tree.Ancestors.{Ancestor, lookup-known, is_ancestor-Ancestor}

contains-insert_by :
    (less : String → String → Bool) (s x : String) (ys : List String)
    → contains (insert_by less s ys) x ≡ (s == x || contains ys x)
unfolding insert_by
contains-insert_by less s x [] = refl
contains-insert_by less s x (y ∷ ys) = ground (arith, contains-insert_by less s x ys)

contains-sort_by :
    (less : String → String → Bool) (x : String) (ys : List String)
    → contains (sort_by less ys) x ≡ contains ys x
unfolding sort_by
contains-sort_by less x [] = refl
contains-sort_by less x (y ∷ ys) =
    ground (arith, contains-insert_by less y x (sort_by less ys), contains-sort_by less x ys)

contains-members_below :
    (ss : Sessions) (root x : String) (names : List String)
    → contains (members_below ss root names) x
      ≡ (contains names x && not (x == root) && is_ancestor ss root x)
unfolding members_below
contains-members_below ss root x [] = refl
contains-members_below ss root x (name ∷ names) = ground (
  arith,
  eq_iff name x,
  λ (e : name ≡ x). ap (is_ancestor ss root) e,
  λ (e : name ≡ x). ap (λ z. z == root) e,
  contains-members_below ss root x names,
)

known : (ss : Sessions) (root x : String) → Ancestor ss root x → contains (keys ss) x ≡ true
known ss root x (Ancestor.direct name e) = elim (Option-cases (lookup x ss)) [
  | inl n ↦ absurd (ground arith)
  | inr (s, q) ↦ lookup-known ss x s q
]
known ss root x (Ancestor.further name p e a) = elim (Option-cases (lookup x ss)) [
  | inl n ↦ absurd (ground arith)
  | inr (s, q) ↦ lookup-known ss x s q
]

module _ (ss : Sessions) where
  contains-subtree :
      (root : String) (s : Session)
      → lookup root ss ≡ some s
      → (x : String)
      → contains (subtree ss root) x
        ≡ (root == x || (contains (keys ss) x && not (x == root) && is_ancestor ss root x))
  unfolding subtree
  contains-subtree root s e x = ground (
    arith,
    e,
    contains-sort_by text_ltb x (root ∷ members_below ss root (keys ss)),
    contains-members_below ss root x (keys ss),
  )

  -- The subtree of a known session has exactly itself and the sessions that it is an ancestor of.
  pub subtree-Ancestor :
      (root : String) (s : Session)
      → lookup root ss ≡ some s
      → (x : String) → contains (subtree ss root) x ≡ true ↔ ((root ≡ x) ⊎ Ancestor ss root x)
  subtree-Ancestor root s e x =
      let c = contains-subtree root s e x in
      (
        λ h. elim (Bool-cases (root == x)) [
          | inl q ↦ inl (eq_of_== root x q)
          | inr q ↦ inr ((is_ancestor-Ancestor ss root x).0 (ground arith))
        ],
        λ side. elim side [
          | inl q ↦ ground (arith, eq_iff root x)
          | inr a ↦ ground (
            arith,
            eq_iff root x,
            eq_iff x root,
            known ss root x a,
            (is_ancestor-Ancestor ss root x).1 a,
          )
        ],
      )

  -- The recorded parent of a known session.
  abbrev pub HasParent : String → String → Type 0
  HasParent name p = (s : Session) × (lookup name ss ≡ some s) × (s.parent_session ≡ p)

  -- Where a session stands: below its recorded parent, and without one below a root of its own.
  pub data Below (name : String) : String → Type 0 where
    recorded : {p : String} → HasParent name p → (p == "") ≡ false → Below name p
    own_root : HasParent name "" → Below name (implicit_root_parent name)

  abbrev pub Siblings : String → String → Type 0
  Siblings t o = (p : String) × (Below t p × Below o p)

  -- What a relation says of the target and the other session.
  abbrev pub Means : SessionRelation → String → String → Type 0
  Means SessionRelation.self t o = t ≡ o
  Means SessionRelation.parent t o = HasParent t o
  Means SessionRelation.child t o = HasParent o t
  Means SessionRelation.sibling t o = t ≢ o × Siblings t o
  Means SessionRelation.ancestor t o = Ancestor ss o t
  Means SessionRelation.descendant t o = Ancestor ss t o
  Means SessionRelation.unrelated t o =
      t ≢ o × (¬ Ancestor ss o t) × (¬ Ancestor ss t o) × (¬ Siblings t o)

  Below-effective :
      (name : String) (s : Session) → lookup name ss ≡ some s → Below name (effective_parent s name)
  Below-effective name s e = elim (Bool-cases (s.parent_session == "")) [
    | inl h ↦ rw h (Below.own_root (s, e, eq_of_== s.parent_session "" h))
    | inr h ↦ rw h (Below.recorded (s, e, refl) h)
  ]

  Below-only :
      (name p : String) (s : Session)
      → lookup name ss ≡ some s
      → Below name p
      → p ≡ effective_parent s name
  Below-only name p s e (Below.recorded (q, f, g) n) = ground (arith, e, f, g, n)
  Below-only name p s e (Below.own_root (q, f, g)) =
      ground (arith, e, f, g, eq_iff s.parent_session "")

  module _ (t o : String) (s q : Session) (e : lookup t ss ≡ some s)
      (f : lookup o ss ≡ some q) where
    means : (rel : SessionRelation) → relation_from_target ss t o ≡ rel → Means rel t o
    unfolding relation_from_target
    means SessionRelation.self h = ground (arith, eq_iff t o)
    means SessionRelation.parent h = (s, e, ground (arith, eq_iff s.parent_session o))
    means SessionRelation.child h = (q, f, ground (arith, eq_iff q.parent_session t))
    means SessionRelation.sibling h =
        let same : effective_parent s t ≡ effective_parent q o =
          eq_of_== (effective_parent s t) (effective_parent q o) (ground (arith, e, f)) in
        (
          λ k. ground (arith, eq_iff t o),
          (
            effective_parent s t,
            (Below-effective t s e, subst (Below o) (sym same) (Below-effective o q f)),
          ),
        )
    means SessionRelation.ancestor h = (is_ancestor-Ancestor ss o t).0 (ground arith)
    means SessionRelation.descendant h = (is_ancestor-Ancestor ss t o).0 (ground arith)
    means SessionRelation.unrelated h = (
      λ k. ground (arith, eq_iff t o),
      λ a. ground (arith, (is_ancestor-Ancestor ss o t).1 a),
      λ a. ground (arith, (is_ancestor-Ancestor ss t o).1 a),
      λ x. ground (
        arith,
        eq_iff (effective_parent s t) (effective_parent q o),
        Below-only t x.0 s e x.1.0,
        Below-only o x.0 q f x.1.1,
      ),
    )

  -- Between two known sessions, the relation that is reported holds: it is self only for one name; parent and
  -- child only along a recorded parent; sibling only for two sessions below the same recorded parent, where a session without
  -- one is only below a root of its own; ancestor and descendant only along a chain of parents; and unrelated
  -- only for different sessions of which none is above the other and that are not siblings.
  pub relation_from_target-Means :
      (t o : String) (s q : Session)
      → lookup t ss ≡ some s
      → lookup o ss ≡ some q
      → Means (relation_from_target ss t o) t o
  relation_from_target-Means t o s q e f = means t o s q e f (relation_from_target ss t o) refl
