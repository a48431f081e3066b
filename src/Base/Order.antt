-- ===== src/Base/Order.antt =====
-- The order of texts that `sort.Strings` uses, and insertion by an order given as a test. Go
-- sorts by other means; where the order is total or the sort is stable, the result is the same.
use Prim.Native.String.compare
use Prim.Native.Char.{Char, code}
use Prim.Native.String.{String, [] as nil, ◌∷◌ as char_then, compare, then as chain}
use Prim.Native.Nat.{compare as compare_ℕ}
use mathlib.Core.Path.{◌≡◌, refl, ap}
use mathlib.Core.Logic.{inl, inr}
use mathlib.Core.Bool.{Bool, true, false, ◌||◌}
use mathlib.Core.List.{List, [], ◌∷◌, ◌++◌}
use native.Mathlib.Omega.{arith}
use text.Mathlib.Text.{is_lt, is_eq}
use plecture.Base.Tests.{if◌then◌else◌, Bool-cases}
use plecture.Base.Lists.{All}

abbrev pub text_ltb : String → String → Bool
text_ltb s t = is_lt (compare s t)

step :
    (c d : Char) (s t : String)
    → text_ltb (char_then c s) (char_then d t)
      ≡ is_lt (chain (compare_ℕ (code c) (code d)) (compare s t))
step c d s t = ap is_lt (compare.cons-cons c d s t)

-- Whatever lies between, one of the two steps goes up.
pub text_ltb-split : (s t u : String) → text_ltb s u ≡ true → (text_ltb s t || text_ltb t u) ≡ true
text_ltb-split nil nil u h = rw h refl
text_ltb-split nil (char_then d t) u h = rw (ap is_lt (compare.nil-cons d t)) refl
text_ltb-split (char_then c s) t nil h = absurd (cc (ap is_lt (compare.cons-nil c s), h))
text_ltb-split (char_then c s) nil (char_then e u) h =
    rw (ap is_lt (compare.nil-cons e u), ap is_lt (compare.cons-nil c s)) refl
text_ltb-split (char_then c s) (char_then d t) (char_then e u) h =
    ground (arith, step c d s t, step d e t u, step c e s u, text_ltb-split s t u)

pub text_ltb-asym : (s t : String) → text_ltb s t ≡ true → text_ltb t s ≡ false
text_ltb-asym nil nil h = ground arith
text_ltb-asym nil (char_then d t) h = rw (ap is_lt (compare.cons-nil d t)) refl
text_ltb-asym (char_then c s) nil h = absurd (cc (ap is_lt (compare.cons-nil c s), h))
text_ltb-asym (char_then c s) (char_then d t) h =
    ground (arith, step c d s t, step d c t s, text_ltb-asym s t)

step_eq :
    (c d : Char) (s t : String)
    → is_eq (compare (char_then c s) (char_then d t))
      ≡ is_eq (chain (compare_ℕ (code c) (code d)) (compare s t))
step_eq c d s t = ap is_eq (compare.cons-cons c d s t)

-- Two texts are in order one way or the other, or equal.
pub text_ltb-total : (s t : String) → (text_ltb s t || (text_ltb t s || is_eq (compare s t))) ≡ true
text_ltb-total nil nil = refl
text_ltb-total nil (char_then d t) = ground (arith, ap is_lt (compare.nil-cons d t))
text_ltb-total (char_then c s) nil = ground (arith, ap is_lt (compare.nil-cons c s))
text_ltb-total (char_then c s) (char_then d t) =
    ground (arith, step c d s t, step d c t s, step_eq c d s t, text_ltb-total s t)

module _ {ℓ} {A : Type ℓ} (less : A → A → Bool) where
  unfoldable pub insert_by : A → List A → List A
  insert_by x [] = x ∷ []
  insert_by x (y ∷ ys) = let rest = insert_by x ys in if less y x then y ∷ rest else x ∷ y ∷ ys

  -- `sort.Slice`, `sort.SliceStable`.
  unfoldable pub sort_by : List A → List A
  unfolding insert_by
  sort_by [] = []
  sort_by (x ∷ xs) = insert_by x (sort_by xs)

  pub insert_by-All {κ} :
      (P : A → Type κ) (x : A) (ys : List A) → P x → All P ys → All P (insert_by x ys)
  unfolding insert_by
  insert_by-All P x [] p a = (p, tt)
  insert_by-All P x (y ∷ ys) p a = elim (Bool-cases (less y x)) [
    | inl e ↦ rw (e, insert_by) (a.0, insert_by-All P x ys p a.1)
    | inr e ↦ rw (e, insert_by) (p, a)
  ]

  pub sort_by-All {κ} : (P : A → Type κ) (xs : List A) → All P xs → All P (sort_by xs)
  unfolding sort_by
  sort_by-All P [] a = tt
  sort_by-All P (x ∷ xs) a = insert_by-All P x (sort_by xs) a.0 (sort_by-All P xs a.1)

  -- No entry is less than one before it.
  abbrev pub Ascending : List A → Type 0
  Ascending [] = Unit
  Ascending (x ∷ xs) = All (λ y. less y x ≡ false) xs × Ascending xs

  pub insert_front :
      (x : A) (ys : List A) → All (λ y. less y x ≡ false) ys → insert_by x ys ≡ x ∷ ys
  unfolding insert_by
  insert_front x [] a = refl
  insert_front x (y ∷ ys) a = ground (arith, a.0)

  pub insert_past :
      (x : A) (ys zs : List A)
      → All (λ y. less y x ≡ true) ys
      → insert_by x (ys ++ zs) ≡ ys ++ insert_by x zs
  unfolding insert_by
  insert_past x [] zs a = refl
  insert_past x (y ∷ ys) zs a = ground (arith, a.0, insert_past x ys zs a.1)
