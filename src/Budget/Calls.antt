-- ===== src/Budget/Calls.antt =====
-- When the budget lets a process call.
use plecture.Base.{ℕ, ◌+◌, ◌*◌, ◌<◌, ◌≡◌, Bool, false, Option, none, some, ltb, eqb, ◌⊎◌}
use plecture.Budget.{second}

-- What a throttle answer at `now` asks for: no call before `end`. A positive Retry-After is a duration; without
-- one, a reset in the future is the end; without either it is a minute.
abbrev pub Asks : ℕ → ℕ → Option ℕ → ℕ → Type 0
Asks now retry_after reset end =
    ((0 < retry_after) × (end ≡ now + retry_after))
    ⊎ (((retry_after ≡ 0) × (reset ≡ some end) × (now < end))
        ⊎ ((retry_after ≡ 0)
            × ((elim reset [ none ↦ false | some at ↦ ltb now at ]) ≡ false)
            × (end ≡ now + 60 * second)))

-- `Wait` lets its caller go on: it answers, and with no time to wait.
abbrev pub may_call : Option ℕ → Bool
may_call none = false
may_call (some left) = eqb left 0
