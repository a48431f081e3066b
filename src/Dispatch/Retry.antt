-- ===== src/Dispatch/Retry.antt =====
-- Delivery with retries (`retry` of app/internal/channel/retry.go). Times are in nanoseconds; with a
-- maximum they stay below twice that, and far below 2^63.
pub mod Schedule
use plecture.Base.{
  String, ℕ, zero, suc, ◌+◌, ◌-◌, ◌*◌, Bool, ◌&&◌, List, [], ◌∷◌, Option, none, some, if◌then◌else◌,
  ltb, eqb,
}

pub record RetryPolicy : Type 0 where
  pub max_attempts : ℕ
  pub base_backoff : ℕ
  pub max_backoff : ℕ
  pub timeout : ℕ

abbrev pub millisecond : ℕ
millisecond = 1000000

abbrev pub default_retry_policy : RetryPolicy
default_retry_policy = record {
  max_attempts = 3;
  base_backoff = 200 * millisecond;
  max_backoff = 2000 * millisecond;
  timeout = 5000 * millisecond;
}

-- The attempts made, the final error, and the times waited between attempts.
pub record Retried : Type 0 where
  pub attempts : ℕ
  pub error : Option String
  pub waits : List ℕ

-- `backoff *= 2`, at most `MaxBackoff` where that is positive.
abbrev pub next_backoff : RetryPolicy → ℕ → ℕ
next_backoff policy backoff =
    if ltb 0 policy.max_backoff && ltb policy.max_backoff (backoff * 2)
    then policy.max_backoff
    else backoff * 2

-- `attempt n` is the error of the n-th attempt under the timeout, and `cancelled n` that of the context if
-- it ends during the wait after it.
module _ (policy : RetryPolicy) (attempt cancelled : ℕ → Option String) where
  -- The loop at attempt `n`, with `left` more attempts allowed after it.
  pub retry_loop : ℕ → ℕ → ℕ → Retried
  retry_loop zero n backoff = record { attempts = n; error = attempt n; waits = [] }
  retry_loop (suc left) n backoff =
      let later = retry_loop left (n + 1) (next_backoff policy backoff) in
      elim (attempt n) [
        | none ↦ record { attempts = n; error = none; waits = [] }
        | some e ↦ elim (cancelled n) [
          | some stop ↦ record { attempts = n; error = some stop; waits = [] }
          | none ↦ record later { waits = backoff ∷ later.waits }
        ]
      ]

abbrev at_least_one : ℕ → ℕ
at_least_one n = if ltb n 1 then 1 else n

-- `attempt t n` is the n-th attempt under the timeout `t`.
unfoldable pub retry : RetryPolicy → ℕ → (ℕ → ℕ → Option String) → (ℕ → Option String) → Retried
unfolding retry_loop
retry policy per_attempt attempt cancelled =
    let timeout = if ltb 0 per_attempt then per_attempt else policy.timeout in
    retry_loop policy (attempt timeout) cancelled (at_least_one policy.max_attempts - 1) 1
      policy.base_backoff
