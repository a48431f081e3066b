-- ===== src/Base/Texts.antt =====
-- Names are native texts. Membership of a name in a list of names, as the program's
-- `slices.Contains` and its sets `map[string]bool` compute it, and lists without a repeated name.
use Prim.Native.String.{String}
use mathlib.Core.Path.{◌≡◌, refl}
use mathlib.Core.Logic.{◌⊎◌, inl, inr}
use mathlib.Core.Bool.{Bool, true, false, ◌||◌}
use mathlib.Core.List.{List, [], ◌∷◌, ◌++◌}
use native.Mathlib.Omega.{arith}
use text.Mathlib.Text
use text.Mathlib.TextEquality.{eq_iff}
use text.Mathlib.TextPositions.{eq_refl}
use plecture.Base.Lists.{All, All-map}
use plecture.Base.Tests.{Bool-cases}

infix 50 ◌==◌
abbrev pub ◌==◌ : String → String → Bool
a == b = Text.◌==◌ a b

pub ==-refl : (s : String) → (s == s) ≡ true
==-refl s = eq_refl s

pub eq_of_== : (s t : String) → (s == t) ≡ true → s ≡ t
eq_of_== s t h = (eq_iff s t).0 h

pub ==_of_eq : (s t : String) → s ≡ t → (s == t) ≡ true
==_of_eq s t h = (eq_iff s t).1 h

pub ==-sym : (s t : String) → (s == t) ≡ (t == s)
==-sym s t = ground (arith, eq_iff s t, eq_iff t s)

pub ==-cases : (s t : String) → (s ≡ t) ⊎ ((s == t) ≡ false)
==-cases s t = elim (Bool-cases (s == t)) [ inl e ↦ inl (eq_of_== s t e) | inr e ↦ inr e ]

abbrev pub contains : List String → String → Bool
contains [] s = false
contains (x ∷ xs) s = x == s || contains xs s

abbrev pub Distinct : List String → Type 0
Distinct [] = Unit
Distinct (x ∷ xs) = (contains xs x ≡ false) × Distinct xs

pub contains-append :
    (xs ys : List String) (s : String) → contains (xs ++ ys) s ≡ (contains xs s || contains ys s)
contains-append [] ys s = refl
contains-append (x ∷ xs) ys s = ground (arith, contains-append xs ys s)

-- Lists without a repeated name, joined.
pub Distinct-append :
    (xs ys : List String)
    → Distinct xs
    → Distinct ys
    → All (λ y. contains xs y ≡ false) ys
    → Distinct (xs ++ ys)
Distinct-append [] ys d e f = e
Distinct-append (x ∷ xs) ys d e f = (
  ground (arith, contains-append xs ys x, away ys f),
  Distinct-append xs ys d.1 e (All-map (λ y h. rest y h) ys f),
)
  where
    rest : (y : String) → contains (x ∷ xs) y ≡ false → contains xs y ≡ false
    rest y h = ground arith

    away : (zs : List String) → All (λ y. contains (x ∷ xs) y ≡ false) zs → contains zs x ≡ false
    away [] h = refl
    away (z ∷ zs) h = ground (arith, away zs h.1, eq_iff z x, eq_iff x z)
