-- ===== src/Task/Sort/Counts.antt =====
-- How many dependency slots of a node are still open once the nodes `done` have been taken.
use plecture.Base.{
  String, ℕ, ◌+◌, ◌≡◌, true, false, not, ◌&&◌, List, [], ◌∷◌, arith, ◌==◌, contains, count,
}
use text.Mathlib.TextEquality.{eq_iff}

-- The slots that name `c`.
abbrev pub slots : String → List String → ℕ
slots c = count (λ d. d == c)

-- The slots that name a node of the list, not yet taken.
abbrev pub open_slots : List String → List String → List String → ℕ
open_slots in_scope done = count (λ d. contains in_scope d && not (contains done d))

-- Taking `c` closes just the slots that name it.
pub open_slots-cons :
    (in_scope done : List String) (c : String) (deps : List String)
    → contains in_scope c ≡ true
    → contains done c ≡ false
    → open_slots in_scope done deps ≡ slots c deps + open_slots in_scope (c ∷ done) deps
open_slots-cons in_scope done c [] p q = omega arith
open_slots-cons in_scope done c (d ∷ deps) p q =
    ground (arith, eq_iff c d, eq_iff d c, step, open_slots-cons in_scope done c deps p q)
  where
    step : d ≡ c → (contains in_scope d ≡ true) × (contains done d ≡ false)
    step e = rw e (p, q)
