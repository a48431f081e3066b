-- ===== src/Population/Backoff/Delays.antt =====
-- The retry times in closed form.
use plecture.Base.{ℕ, zero, suc, ◌*◌, ◌^◌, ◌≤◌, ◌≡◌, refl, arith, if◌then◌else◌, ltb}
use plecture.Population.Backoff.{
  second, admit_retry_base, admit_retry_max, double_while, admit_retry_delay,
}

abbrev pub min : ℕ → ℕ → ℕ
min a b = if ltb a b then a else b

double_while_full : (rounds delay : ℕ) → admit_retry_max ≤ delay → double_while rounds delay ≡ delay
unfolding double_while
double_while_full zero delay h = refl
double_while_full (suc rounds) delay h = ground arith

power_positive : (n : ℕ) → 1 ≤ 2 ^ n
power_positive zero = omega arith
power_positive (suc n) = omega (arith, power_positive n)

-- Before the n-th retry, n at least 1, the engine waits for five seconds times 2^(n-1), and for
-- a minute at most.
pub admit_retry_delay_lem :
    (n : ℕ) → admit_retry_delay (suc n) ≡ min (admit_retry_base * 2 ^ n) admit_retry_max
unfolding admit_retry_delay double_while
admit_retry_delay_lem zero = refl
admit_retry_delay_lem (suc zero) = refl
admit_retry_delay_lem (suc (suc zero)) = refl
admit_retry_delay_lem (suc (suc (suc zero))) = refl
admit_retry_delay_lem (suc (suc (suc (suc n)))) =
    ground (arith, double_while_full n (admit_retry_base * 16) (omega arith), power_positive n)

-- The table of the waits of a sleeping member.
pub waits : ℕ → ℕ
waits t =
    if ltb t (5 * second)
    then 5 * second
    else if ltb t (10 * second)
    then 10 * second
    else if ltb t (20 * second)
    then 20 * second
    else if ltb t (40 * second)
    then 40 * second
    else 60 * second
