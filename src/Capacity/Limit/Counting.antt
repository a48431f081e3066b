-- ===== src/Capacity/Limit/Counting.antt =====
-- Counting children that are up or reserved.
use text.Mathlib.TextEquality.{eq_iff}
use plecture.Base.{
  String, ℕ, ◌+◌, ◌≡◌, refl, Bool, false, not, ◌&&◌, List, [], ◌∷◌, arith, if◌then◌else◌, ◌==◌, any,
  count, contains, keys, Distinct, Bool-cases, inl, inr,
}
use plecture.Capacity.{Session, Sessions, Cap, under_cap, is_up_child}
use plecture.Capacity.Limit.{set_up}

abbrev pub bit : Bool → ℕ
bit b = if b then 1 else 0

abbrev pub nobody : String → Bool
nobody name = false

-- `up[name]`.
abbrev pub is_up : Cap → (String → Bool) → Sessions → String → Bool
is_up cap skip ss name = any (λ e. e.0 == name && is_up_child cap skip e) ss

-- The reservations of a parent for children that are not up.
abbrev pub reserved : (String → Bool) → String → List (String × String) → ℕ
reserved up parent rs = count (λ r. r.1 == parent && not (up r.0)) rs

module _ (cap : Cap) where
  is_up-unknown :
      (skip : String → Bool) (ss : Sessions) (name : String)
      → contains (keys ss) name ≡ false
      → is_up cap skip ss name ≡ false
  is_up-unknown skip [] name h = refl
  is_up-unknown skip ((k, s) ∷ ss) name h = ground (arith, is_up-unknown skip ss name)

  -- The child itself is left out.
  pub count-skip :
      (ss : Sessions) (child : String)
      → Distinct (keys ss)
      → count (is_up_child cap nobody) ss
        ≡ count (is_up_child cap (λ name. name == child)) ss + bit (is_up cap nobody ss child)
  unfolding is_up_child
  count-skip [] child d = omega arith
  count-skip ((k, s) ∷ ss) child d = elim (Bool-cases (k == child)) [
    | inl e ↦
        ground
          (arith, e, eq_iff k child, count-skip ss child d.1, is_up-unknown nobody ss child, d.0)
    | inr e ↦ ground (arith, e, count-skip ss child d.1)
  ]

  pub is_up-skip :
      (ss : Sessions) (child name : String)
      → (name == child) ≡ false
      → is_up cap (λ n. n == child) ss name ≡ is_up cap nobody ss name
  unfolding is_up_child
  is_up-skip [] child name h = refl
  is_up-skip ((k, s) ∷ ss) child name h =
      ground (arith, eq_iff k name, eq_iff k child, eq_iff name child, is_up-skip ss child name h)

  -- A session comes up or goes down.
  pub is_up-set_up :
      (up : Bool) (ss : Sessions) (child name : String)
      → (name == child) ≡ false
      → is_up cap nobody (set_up child up ss) name ≡ is_up cap nobody ss name
  unfolding set_up is_up_child
  is_up-set_up up [] child name h = refl
  is_up-set_up up ((k, s) ∷ ss) child name h =
      ground
        (arith, eq_iff k name, eq_iff k child, eq_iff name child, is_up-set_up up ss child name h)

  set_up-other :
      (up : Bool) (ss : Sessions) (child : String)
      → contains (keys ss) child ≡ false
      → set_up child up ss ≡ ss
  unfolding set_up
  set_up-other up [] child h = refl
  set_up-other up ((k, s) ∷ ss) child h = ground (arith, set_up-other up ss child)

  under_cap-same :
      (cap : Cap) (s : Session) (up : Bool)
      → under_cap cap (record s { run_up = up }) ≡ under_cap cap s
  unfolding under_cap
  under_cap-same Cap.virtual s up = refl
  under_cap-same (Cap.parent name) s up = refl

  pub count-set_up :
      (up : Bool) (ss : Sessions) (child : String)
      → Distinct (keys ss)
      → count (is_up_child cap nobody) (set_up child up ss) + bit (is_up cap nobody ss child)
        ≡ count (is_up_child cap nobody) ss + bit (is_up cap nobody (set_up child up ss) child)
  unfolding set_up is_up_child
  count-set_up up [] child d = refl
  count-set_up up ((k, s) ∷ ss) child d = elim (Bool-cases (k == child)) [
    | inl e ↦
        let away : contains (keys ss) child ≡ false = ground (arith, eq_iff k child, d.0) in
        ground (
          arith,
          e,
          set_up-other up ss child away,
          is_up-unknown nobody ss child away,
          under_cap-same cap s up,
        )
    | inr e ↦ ground (arith, e, count-set_up up ss child d.1)
  ]

  pub down-is_up :
      (ss : Sessions) (child : String) → is_up cap nobody (set_up child false ss) child ≡ false
  unfolding set_up is_up_child
  down-is_up [] child = refl
  down-is_up ((k, s) ∷ ss) child = ground (arith, down-is_up ss child)

  -- A session that is not under the cap is no child of it, up or down.
  pub foreign-is_up :
      (up : Bool) (ss : Sessions) (child : String)
      → any (λ e. e.0 == child && under_cap cap e.1) ss ≡ false
      → is_up cap nobody (set_up child up ss) child ≡ false
  unfolding set_up is_up_child
  foreign-is_up up [] child h = refl
  foreign-is_up up ((k, s) ∷ ss) child h =
      ground (arith, h, under_cap-same cap s up, foreign-is_up up ss child)

pub not_held :
    (parent child : String) (rs : List (String × String))
    → contains (keys rs) child ≡ false
    → any (λ r. r.0 == child && r.1 == parent) rs ≡ false
not_held parent child [] h = refl
not_held parent child ((k, p) ∷ rs) h = ground (arith, not_held parent child rs)

-- Only what is said of one name changes.
pub reserved-change :
    (parent child : String) (u v : String → Bool) (rs : List (String × String))
    → Distinct (keys rs)
    → ((name : String) → (name == child) ≡ false → u name ≡ v name)
    → let holds = any (λ r. r.0 == child && r.1 == parent) rs in
      reserved v parent rs + bit (holds && v child) ≡ reserved u parent rs + bit (holds && u child)
reserved-change parent child u v [] d h = refl
reserved-change parent child u v ((k, p) ∷ rs) d h = elim (Bool-cases (k == child)) [
  | inl e ↦
      let away : contains (keys rs) child ≡ false = ground (arith, eq_iff k child, d.0) in
      ground (
        arith,
        e,
        eq_iff k child,
        not_held parent child rs away,
        reserved-change parent child u v rs d.1 h,
      )
  | inr e ↦ ground (arith, e, h k e, reserved-change parent child u v rs d.1 h)
]
