-- ===== src/Tree/Ancestors.antt =====
-- `isAncestor` finds exactly the ancestors.
use text.Mathlib.TextEquality.{eq_iff}
use plecture.Base.{
  String, ℕ, zero, suc, ◌≤◌, ◌<◌, ◌≡◌, ◌↔◌, refl, ap, subst, inl, inr, true, false, not, List, [],
  ◌∷◌, Option, none, some, arith, if◌then◌else◌, ◌==◌, lookup, contains, length, keys, count,
  count-le-length, Bool-cases, Option-cases, eq_of_==, ==-refl,
}
use plecture.Tree.{Session, Sessions, climb, is_ancestor}

-- The parent of a session, if it has one.
abbrev pub parent_of : Sessions → String → Option String
parent_of sessions name = elim (lookup name sessions) [
  | none ↦ none
  | some s ↦
      if name == "" then none else if s.parent_session == "" then none else some s.parent_session
]

-- `above` is the parent of `name`, or an ancestor of its parent.
pub data Ancestor (sessions : Sessions) (above : String) : String → Type 0 where
  direct : (name : String) → parent_of sessions name ≡ some above → Ancestor sessions above name
  further :
      (name p : String)
      → parent_of sessions name ≡ some p
      → Ancestor sessions above p
      → Ancestor sessions above name

-- What the loop knows of the names it has seen: none has `above` for its parent, and each one's
-- parent is seen as well or is the current name.
record Passed (sessions : Sessions) (above : String) (seen : List String) (cur : String)
    : Type 0 where
  missed :
      (x : String)
      → contains seen x ≡ true
      → (p : String) → parent_of sessions x ≡ some p
      → (p == above) ≡ false
  chained :
      (x : String)
      → contains seen x ≡ true
      → (p : String) → parent_of sessions x ≡ some p
      → contains (cur ∷ seen) p ≡ true

pub lookup-known :
    (ss : Sessions) (name : String) (s : Session)
    → lookup name ss ≡ some s
    → contains (keys ss) name ≡ true
lookup-known [] name s h = cc
lookup-known ((k, t) ∷ ss) name s h = ground (arith, lookup-known ss name s)

pub length-keys : (ss : Sessions) → length (keys ss) ≡ length ss
length-keys [] = refl
length-keys ((k, t) ∷ ss) = ap suc (length-keys ss)

pub unseen_le :
    (seen : List String) (c : String) (ks : List String)
    → count (λ k. not (contains (c ∷ seen) k)) ks ≤ count (λ k. not (contains seen k)) ks
unseen_le seen c [] = omega arith
unseen_le seen c (k ∷ ks) = ground (arith, unseen_le seen c ks)

pub unseen_lt :
    (seen : List String) (c : String) (ks : List String)
    → contains ks c ≡ true
    → contains seen c ≡ false
    → count (λ k. not (contains (c ∷ seen) k)) ks < count (λ k. not (contains seen k)) ks
unseen_lt seen c [] h n = cc
unseen_lt seen c (k ∷ ks) h n =
    ground (arith, eq_iff k c, eq_iff c k, unseen_le seen c ks, unseen_lt seen c ks)

module _ (sessions : Sessions) (above : String) where
  -- From names that are closed under parents, none of which has `above` for its parent, nothing leads to it.
  no_way_up :
      (seen : List String) (cur : String)
      → Passed sessions above seen cur
      → contains seen cur ≡ true
      → (x : String) → Ancestor sessions above x
      → contains seen x ≡ true
      → ⊥
  no_way_up seen cur g c x (Ancestor.direct name e) h = cc (g.missed x h above e, ==-refl above)
  no_way_up seen cur g c x (Ancestor.further name p e a) h =
      no_way_up seen cur g c p a
        (ground (arith, g.chained x h p e, eq_iff cur p, λ (q : cur ≡ p). ap (contains seen) q))

  climb_sound :
      (fuel : ℕ) (seen : List String) (cur : String)
      → climb fuel sessions above seen cur ≡ true
      → Ancestor sessions above cur
  unfolding climb
  climb_sound zero seen cur h = cc
  climb_sound (suc fuel) seen cur h = elim (Option-cases (lookup cur sessions)) [
    | inl n ↦ absurd (ground arith)
    | inr (s, e) ↦ elim (Bool-cases (s.parent_session == above)) [
      | inl q ↦ Ancestor.direct cur (ground (arith, eq_of_== s.parent_session above q))
      | inr q ↦
          Ancestor.further cur s.parent_session (ground arith)
            (climb_sound fuel (cur ∷ seen) s.parent_session (ground arith))
    ]
  ]

  abbrev unseen : List String → ℕ
  unseen seen = count (λ k. not (contains seen k)) (keys sessions)

  step :
      (seen : List String) (cur p : String)
      → Passed sessions above seen cur
      → parent_of sessions cur ≡ some p
      → (p == above) ≡ false
      → Passed sessions above (cur ∷ seen) p
  step seen cur p g e n = record {
    missed = λ x h q f. elim (Bool-cases (cur == x)) [
      | inl same ↦ ground (arith, e, f, ap (parent_of sessions) (eq_of_== cur x same))
      | inr other ↦ g.missed x (ground arith) q f
    ];
    chained = λ x h q f. elim (Bool-cases (cur == x)) [
      | inl same ↦
          let one : p ≡ q = cc (e, f, ap (parent_of sessions) (eq_of_== cur x same)) in
          subst (λ z. contains (p ∷ cur ∷ seen) z ≡ true) one (ground (arith, ==-refl p))
      | inr other ↦ ground (arith, g.chained x (ground arith) q f)
    ];
  }

  climb_complete :
      (fuel : ℕ) (seen : List String) (cur : String)
      → unseen seen < fuel
      → Passed sessions above seen cur
      → Ancestor sessions above cur
      → climb fuel sessions above seen cur ≡ true
  unfolding climb
  climb_complete zero seen cur h g a = absurd (omega (arith, h))
  climb_complete (suc fuel) seen cur h g (Ancestor.direct name e) =
      elim (Bool-cases (contains seen cur)) [
        | inl c ↦ absurd (no_way_up seen cur g c cur (Ancestor.direct name e) c)
        | inr c ↦ elim (Option-cases (lookup cur sessions)) [
          | inl n ↦ absurd (ground arith)
          | inr (s, q) ↦ ground (arith, eq_iff s.parent_session above)
        ]
      ]
  climb_complete (suc fuel) seen cur h g (Ancestor.further name p e a) =
      elim (Bool-cases (contains seen cur)) [
        | inl c ↦ absurd (no_way_up seen cur g c cur (Ancestor.further name p e a) c)
        | inr c ↦ elim (Option-cases (lookup cur sessions)) [
          | inl n ↦ absurd (ground arith)
          | inr (s, q) ↦ elim (Bool-cases (p == above)) [
            | inl y ↦ ground (arith, eq_iff p above)
            | inr n ↦
                let less = unseen_lt seen cur (keys sessions) (lookup-known sessions cur s q) c in
                let more =
                  climb_complete fuel (cur ∷ seen) p (omega (arith, less, h))
                    (step seen cur p g e n) a in
                let here : s.parent_session ≡ p = ground arith in
                ground (
                  arith,
                  ap (climb fuel sessions above (cur ∷ seen)) here,
                  ap (λ z. z == above) here,
                  more,
                )
          ]
        ]
      ]

  pub is_ancestor-Ancestor :
      (below : String) → is_ancestor sessions above below ≡ true ↔ Ancestor sessions above below
  unfolding is_ancestor
  is_ancestor-Ancestor below = (
    climb_sound (suc (length sessions)) [] below,
    climb_complete (suc (length sessions)) [] below
        (omega
          (arith, count-le-length (λ k. not (contains [] k)) (keys sessions), length-keys sessions))
        (record { missed = λ x h p e. cc; chained = λ x h p e. cc }),
  )
