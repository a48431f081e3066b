-- ===== src/Population/Backoff.antt =====
-- The retry times of app/internal/population/engine.go, in nanoseconds. A `time.Duration` has 63
-- bits; the largest value here is below 2^38.
pub mod Delays
use plecture.Base.{ℕ, zero, suc, ◌+◌, ◌-◌, ◌*◌, Bool, ◌&&◌, if◌then◌else◌, ltb, leb}

abbrev pub second : ℕ
second = 1000000000

abbrev pub admit_retry_base : ℕ
admit_retry_base = 5 * second

abbrev pub admit_retry_max : ℕ
admit_retry_max = 60 * second

abbrev pub admit_failure_limit : ℕ
admit_failure_limit = 5

-- The loop from `attempt` 1 while `attempt < failures`, so `rounds` is `failures - 1` at first.
pub double_while : ℕ → ℕ → ℕ
double_while zero delay = delay
double_while (suc rounds) delay =
    let doubled = double_while rounds (delay * 2) in
    if ltb delay admit_retry_max then doubled else delay

unfoldable pub admit_retry_delay : ℕ → ℕ
unfolding double_while
admit_retry_delay failures =
    let delay = double_while (failures - 1) admit_retry_base in
    if ltb admit_retry_max delay then admit_retry_max else delay

-- The loop of `wakeWaitDelay`, entered at `attempts`.
pub wake_wait : ℕ → ℕ → ℕ → ℕ
unfolding admit_retry_delay
wake_wait zero suspended_for attempts = admit_retry_delay attempts
wake_wait (suc fuel) suspended_for attempts =
    let later = wake_wait fuel suspended_for (suc attempts) in
    let delay = admit_retry_delay attempts in
    if leb delay suspended_for && ltb delay admit_retry_max then later else delay

-- The delay reaches its maximum at the fifth attempt, so four more rounds are enough.
unfoldable pub wake_wait_delay : ℕ → ℕ
unfolding wake_wait
wake_wait_delay suspended_for = wake_wait 4 suspended_for 1
