-- ===== src/Budget.antt =====
-- The shared call budget of plugins/github/src/internal/ratebudget/ratebudget.go: a state file that
-- every process consults before it calls a rate-limited service, and that throttle answers
-- extend. Times are nanoseconds since 1970; they stay far below 2^63. `json` stands for
-- encoding/json on the state's type, and `Faults` says which calls to the system fail.
pub mod Windows
pub mod Sharing
pub mod Calls
pub mod Scenarios
use plecture.Base.{
  String, ℕ, ◌+◌, ◌-◌, ◌*◌, ◌/◌, ◌^◌, Bool, true, false, List, [], ◌∷◌, Option, none, some, ◌⊎◌,
  inl, inr, if◌then◌else◌, ltb, eqb, is_none, ◌==◌,
}

abbrev pub second : ℕ
second = 1000000000

abbrev pub min_backoff : ℕ
min_backoff = 60 * second

abbrev pub max_backoff : ℕ
max_backoff = 15 * (60 * second)

abbrev pub min : ℕ → ℕ → ℕ
min a b = if ltb a b then a else b

-- `backoff_until` is in seconds, 0 where there is none.
pub record State : Type 0 where
  pub backoff_until : ℕ
  pub consecutive : ℕ

abbrev pub clear : State
clear = record { backoff_until = 0; consecutive = 0 }

-- Subtraction on ℕ stops at 0, as `remaining` does.
unfoldable pub remaining : ℕ → State → ℕ
remaining now s = if eqb s.backoff_until 0 then 0 else s.backoff_until * second - now

-- `minBackoff << shift`, at most `maxBackoff`.
unfoldable pub fallback_delay : ℕ → ℕ
fallback_delay consecutive = min (min_backoff * 2 ^ min consecutive 10) max_backoff

-- The `switch`: `retry_after` is 0 where the header is missing or not positive, and `reset` is
-- `none` for the zero time.
unfoldable pub window_end : ℕ → ℕ → Option ℕ → ℕ → ℕ
unfolding fallback_delay
window_end now retry_after reset consecutive =
    if ltb 0 retry_after then now + retry_after else elim reset [
      | none ↦ now + fallback_delay consecutive
      | some at ↦ if ltb now at then at else now + fallback_delay consecutive
    ]

-- `until` after the test of a window that is pending; `time.Unix(s, 0)` is `s * second`.
unfoldable pub extended : State → ℕ → ℕ
extended s until =
    if eqb s.backoff_until 0
    then until
    else if ltb until (s.backoff_until * second)
    then s.backoff_until * second
    else until

-- `until.Unix()` is the division.
unfoldable pub record_throttle : ℕ → ℕ → Option ℕ → State → State
unfolding window_end extended
record_throttle now retry_after reset s = record {
  backoff_until = extended s (window_end now retry_after reset s.consecutive) / second;
  consecutive = if ltb s.consecutive 30 then s.consecutive + 1 else s.consecutive;
}

unfoldable pub record_success : State → State
record_success s = record s { consecutive = 0 }

-- The calls of `update` and `load` that can fail, each true where it fails.
pub record Faults : Type 0 where
  pub make_dir : Bool
  pub open_lock : Bool
  pub lock : Bool
  pub read : Bool
  pub marshal : Bool
  pub write : Bool

abbrev pub no_faults : Faults
no_faults = record {
  make_dir = false;
  open_lock = false;
  lock = false;
  read = false;
  marshal = false;
  write = false;
}

pub record Json : Type 0 where
  pub encode : State → String
  pub decode : String → Option State

-- The state file, `none` where there is no such file.
abbrev pub File : Type 0
File = Option String

-- A text that `decode` refuses counts as no backoff.
unfoldable pub load : Json → Faults → File → Option State
load json faults file = if faults.read then none else elim file [
  | none ↦ some clear
  | some content ↦
      if content == ""
      then some clear
      else elim (json.decode content) [ none ↦ some clear | some s ↦ some s ]
]

-- The locked read-modify-write: the file afterwards, and the state that `change` saw and left, `none`
-- where `update` reports an error.
unfoldable pub update : Json → Faults → (State → State) → File → File × Option State
unfolding load
update json faults change file =
    if faults.make_dir
    then (file, none)
    else if faults.open_lock
    then (file, none)
    else if faults.lock
    then (file, none)
    else elim (load json faults file) [
      | none ↦ (file, none)
      | some s ↦
          if faults.marshal
          then (file, none)
          else if faults.write
          then (file, none)
          else (some (json.encode (change s)), some (change s))
    ]

-- `Guard.Wait`: the file is written back unchanged. `none` is an error.
unfoldable pub wait : Json → Faults → ℕ → File → File × Option ℕ
unfolding update remaining
wait json faults now file =
    let (file', seen) = update json faults (λ s. s) file in
    (file', elim seen [ none ↦ none | some s ↦ some (remaining now s) ])

-- What a process does with the budget, at a time.
pub data Use : Type 0 where
  throttled : ℕ → ℕ → Option ℕ → Use
  succeeded : Use
  waited : ℕ → Use

unfoldable pub use_guard : Json → Faults → Use → File → File
unfolding update wait record_throttle record_success
use_guard json faults (Use.throttled now retry_after reset) file =
    (update json faults (record_throttle now retry_after reset) file).0
use_guard json faults Use.succeeded file = (update json faults record_success file).0
use_guard json faults (Use.waited now) file = (wait json faults now file).0

-- The uses of all processes, in the order in which they hold the lock.
pub use_all : Json → List (Faults × Use) → File → File
unfolding use_guard
use_all json [] file = file
use_all json ((faults, u) ∷ rest) file = use_all json rest (use_guard json faults u file)
