-- ===== src/Budget/Scenarios.antt =====
-- Budgets that are shared, and the window after a throttle answer.
use Prim.Native.Char.{Char}
use text.Mathlib.TextLemmas.{cons≢nil}
use plecture.Base.{
  String, ℕ, zero, suc, ◌+◌, ◌-◌, ◌*◌, ◌≤◌, ◌<◌, ◌≡◌, refl, ap, ◌⊎◌, true, false, List, [], ◌∷◌,
  none, some, if◌then◌else◌, ◌==◌, ==-cases, inl, inr,
}
use plecture.Budget.{
  second, max_backoff, State, clear, Faults, no_faults, Json, Use, remaining, record_throttle,
  use_all, fallback_delay, window_end, extended,
}
use plecture.Budget.Windows.{record_throttle-window}
use plecture.Budget.Sharing.{IsFaithful, view, spend_all, use_all-spend_all}

-- Two numbers in strokes: "a" for each of the first, "b" for each of the second.
abbrev strokes : ℕ → String → String
strokes zero rest = rest
strokes (suc n) rest = String.◌∷◌ "a" (strokes n rest)

abbrev marks : ℕ → String
marks zero = "."
marks (suc n) = String.◌∷◌ "b" (marks n)

abbrev read_marks : String → ℕ
read_marks String.[] = 0
read_marks (String.◌∷◌ c s) =
    let more = read_marks s in if String.◌∷◌ c String.[] == "b" then suc more else more

abbrev read_strokes : String → State
read_strokes String.[] = clear
read_strokes (String.◌∷◌ c s) =
    let more = read_strokes s in
    if String.◌∷◌ c String.[] == "a"
    then record more { backoff_until = suc more.backoff_until }
    else record { backoff_until = 0; consecutive = read_marks (String.◌∷◌ c s) }

abbrev plain : Json
plain = record {
  encode = λ s. strokes s.backoff_until (marks s.consecutive);
  decode = λ text. some (read_strokes text);
}

read_marks-marks : (n : ℕ) → read_marks (marks n) ≡ n
read_marks-marks zero = refl
read_marks-marks (suc n) = ap suc (read_marks-marks n)

read_strokes-marks :
    (n : ℕ) → read_strokes (marks n) ≡ record { backoff_until = 0; consecutive = n }
read_strokes-marks zero = refl
read_strokes-marks (suc n) =
    ap (λ m. record { backoff_until = 0; consecutive = m }) (ap suc (read_marks-marks n))

read_strokes-strokes :
    (n m : ℕ) → read_strokes (strokes n (marks m)) ≡ record { backoff_until = n; consecutive = m }
read_strokes-strokes zero m = read_strokes-marks m
read_strokes-strokes (suc n) m =
    ap {A = State} (λ s. record s { backoff_until = suc s.backoff_until })
      (read_strokes-strokes n m)

cons_not_empty : (c : Char) (s : String) → (String.◌∷◌ c s == "") ≡ false
cons_not_empty c s = elim (==-cases (String.◌∷◌ c s) "") [ inl e ↦ absurd (cons≢nil e) | inr e ↦ e ]

strokes_not_empty : (n m : ℕ) → (strokes n (marks m) == "") ≡ false
strokes_not_empty zero zero = refl
strokes_not_empty zero (suc m) = cons_not_empty "b" (marks m)
strokes_not_empty (suc n) m = cons_not_empty "a" (strokes n (marks m))

plain-IsFaithful : IsFaithful plain
plain-IsFaithful = record {
  inverse = λ s. ap some (read_strokes-strokes s.backoff_until s.consecutive);
  not_empty = λ s. strokes_not_empty s.backoff_until s.consecutive;
}

abbrev full_disk : Faults
full_disk = record no_faults { write = true }

-- Two processes: a throttle answer without headers, one that fails to write, a success, a wait.
abbrev story : List (Faults × Use)
story =
    (no_faults, Use.throttled (3 * second) 0 none)
    ∷ (full_disk, Use.throttled (9 * second) (500 * second) none)
    ∷ (no_faults, Use.succeeded)
    ∷ (no_faults, Use.waited (4 * second))
    ∷ []

use_all-spend_all_example :
    view plain (use_all plain story none) ≡ spend_all story (view plain none)
use_all-spend_all_example = use_all-spend_all plain plain-IsFaithful story none

abbrev pending : State
pending = record { backoff_until = 200; consecutive = 3 }

abbrev later : State
later = record_throttle (100 * second + 5) 0 none pending

-- A throttle answer a little after a full second leaves less than the minute that `minBackoff` stands for.
short_minute :
    remaining (100 * second + 5) (record_throttle (100 * second + 5) 0 none clear) ≡ 60 * second - 5
unfolding remaining record_throttle window_end extended fallback_delay
short_minute = refl

record_throttle-window_example :
    (remaining (100 * second + 5) pending ≤ remaining (100 * second + 5) later)
    × (59 * second < remaining (100 * second + 5) later)
    × (remaining (100 * second + 5) later ≤ max_backoff
        ⊎ (remaining (100 * second + 5) later ≡ remaining (100 * second + 5) pending))
record_throttle-window_example = record_throttle-window (100 * second + 5) pending
