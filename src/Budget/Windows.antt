-- ===== src/Budget/Windows.antt =====
-- The window that a throttle answer opens.
use plecture.Base.{
  ℕ, zero, suc, ◌+◌, ◌*◌, ◌^◌, ◌≤◌, ◌<◌, ◌≡◌, none, arith, ltb, Bool-cases, ◌⊎◌, inl, inr,
}
use plecture.Budget.{
  second, min_backoff, max_backoff, min, State, remaining, fallback_delay, window_end, extended,
  record_throttle,
}

power_positive : (n : ℕ) → 1 ≤ 2 ^ n
power_positive zero = omega arith
power_positive (suc n) = omega (arith, power_positive n)

pub fallback_delay-bounds :
    (n : ℕ) → (min_backoff ≤ fallback_delay n) × (fallback_delay n ≤ max_backoff)
unfolding fallback_delay
fallback_delay-bounds n = ground (arith, power_positive (min n 10))

-- A throttle answer without headers at a time `now` leaves a wait that is not shorter than before, that is
-- longer than 59 seconds, and that is at most 15 minutes unless it is the wait before it.
pub record_throttle-window :
    (now : ℕ) (s : State)
    → let later = record_throttle now 0 none s in
      (remaining now s ≤ remaining now later)
      × (59 * second < remaining now later)
      × (remaining now later ≤ max_backoff ⊎ (remaining now later ≡ remaining now s))
unfolding record_throttle remaining window_end extended
record_throttle-window now s =
    let bounds = fallback_delay-bounds s.consecutive in
    (
      ground (arith, bounds),
      ground (arith, bounds),
      elim (Bool-cases (ltb (now + fallback_delay s.consecutive) (s.backoff_until * second))) [
        | inl e ↦ inr (ground (arith, bounds))
        | inr e ↦ inl (ground (arith, bounds))
      ],
    )
