-- ===== src/Dispatch/Retry/Schedule.antt =====
-- When a delivery is tried, and what it reports.
use plecture.Base.{
  String, ℕ, zero, suc, ◌+◌, ◌-◌, ◌*◌, ◌^◌, ◌≤◌, ◌<◌, ◌≡◌, ◌≢◌, ◌↔◌, refl, ap, ◌∙◌, sym, ◌⊎◌, inl,
  inr, ◌&&◌, List, [], ◌∷◌, Option, none, arith, if◌then◌else◌, ltb, eqb, subst, Bool-cases,
  Option-cases,
}
use plecture.Dispatch.Retry.{RetryPolicy, Retried, next_backoff, retry_loop, retry}

-- The wait after the attempt with `k` attempts before it: the first is `backoff`; it doubles, up to the maximum.
pub wait_at : RetryPolicy → ℕ → ℕ → ℕ
wait_at policy backoff zero = backoff
wait_at policy backoff (suc k) =
    if ltb 0 policy.max_backoff && ltb policy.max_backoff (backoff * 2 ^ suc k)
    then policy.max_backoff
    else backoff * 2 ^ suc k

-- The waits between `count` attempts and one more, the first of them with `k` attempts before it.
pub schedule : RetryPolicy → ℕ → ℕ → ℕ → List ℕ
unfolding wait_at
schedule policy backoff k zero = []
schedule policy backoff k (suc count) =
    wait_at policy backoff k ∷ schedule policy backoff (suc k) count

power_positive : (n : ℕ) → 1 ≤ 2 ^ n
power_positive zero = omega arith
power_positive (suc n) = omega (arith, power_positive n)

next-wait_at :
    (policy : RetryPolicy) (backoff k : ℕ)
    → next_backoff policy (wait_at policy backoff k) ≡ wait_at policy backoff (suc k)
unfolding wait_at
next-wait_at policy backoff zero = ground arith
next-wait_at policy backoff (suc k) =
    let twice : backoff * 2 ^ suc (suc k) ≡ backoff * 2 ^ suc k * 2 = grind arith in
    ground (arith, twice)

module _ (policy : RetryPolicy) (attempt cancelled : ℕ → Option String) where
  -- What the loop did from attempt `n` on, with `left` more attempts allowed.
  pub record Tried (left n : ℕ) (r : Retried) : Type 0 where
    pub enough : (n ≤ r.attempts) × (r.attempts ≤ n + left)
    pub failed_before : (k : ℕ) → n ≤ k → k < r.attempts → (attempt k ≢ none) × (cancelled k ≡ none)
    pub success : r.error ≡ none ↔ attempt r.attempts ≡ none
    pub failure :
        (r.error ≡ none)
        ⊎ (((r.attempts ≡ n + left) × (r.error ≡ attempt r.attempts))
            ⊎ ((r.attempts < n + left) × (r.error ≡ cancelled r.attempts)))

  retry_loop-Tried :
      (backoff left k n : ℕ)
      → let r = retry_loop policy attempt cancelled left n (wait_at policy backoff k) in
        Tried left n r
        × ((count : ℕ) × ((r.attempts ≡ n + count) × (r.waits ≡ schedule policy backoff k count)))
  unfolding retry_loop schedule
  retry_loop-Tried backoff zero k n = (
    record {
      enough = (omega arith, omega arith);
      failed_before = λ j h l. absurd (omega (arith, h, l));
      success = (λ e. e, λ e. e);
      failure = inr (inl (omega arith, refl));
    },
    (0, (omega arith, refl)),
  )
  retry_loop-Tried backoff (suc left) k n = elim (Option-cases (attempt n)) [
    | inl e ↦
        rw (retry_loop, e)
          (
            record {
              enough = (omega arith, omega arith);
              failed_before = λ j h l. absurd (omega (arith, h, l));
              success = (λ q. e, λ q. refl);
              failure = inl refl;
            },
            (0, (omega arith, refl)),
          )
    | inr (reason, e) ↦ elim (Option-cases (cancelled n)) [
      | inr (stop, c) ↦
          rw (retry_loop, e, c)
            (
              record {
                enough = (omega arith, omega arith);
                failed_before = λ j h l. absurd (omega (arith, h, l));
                success = (λ q. absurd (ground arith), λ q. absurd (ground (arith, e)));
                failure = inr (inr (omega arith, sym c));
              },
              (0, (omega arith, refl)),
            )
      | inl c ↦
          let (tried, (count, (size, waits))) = retry_loop-Tried backoff left (suc k) (n + 1) in
          rw (retry_loop, e, c, next-wait_at policy backoff k)
            (
              record {
                enough = (omega (arith, tried.enough), omega (arith, tried.enough));
                failed_before = λ j h l. elim (Bool-cases (eqb n j)) [
                  | inl q ↦
                      let same : n ≡ j = ground arith in
                      subst (λ x. (attempt x ≢ none) × (cancelled x ≡ none)) same
                        (λ z. absurd (ground (arith, e)), c)
                  | inr q ↦ tried.failed_before j (ground arith) l
                ];
                success = tried.success;
                failure = elim tried.failure [
                  | inl q ↦ inl q
                  | inr ends ↦ elim ends [
                    | inl (full, q) ↦ inr (inl (omega (arith, full), q))
                    | inr (short, q) ↦ inr (inr (omega (arith, short), q))
                  ]
                ];
              },
              (suc count, (omega (arith, size), ap (λ ws. wait_at policy backoff k ∷ ws) waits)),
            )
    ]
  ]

-- How many attempts a policy allows.
abbrev pub allowed : RetryPolicy → ℕ
allowed policy = if ltb policy.max_attempts 1 then 1 else policy.max_attempts

-- A delivery is tried once at least and as often as the policy allows at most, and only after an attempt that failed without
-- the context ending. It reports success if and only if the last attempt succeeded, and otherwise the error of the last
-- attempt allowed, or that of the context. The waits between the attempts double from the base on, up to the maximum.
pub retry-Tried :
    (policy : RetryPolicy) (per_attempt : ℕ) (attempt : ℕ → ℕ → Option String)
    (cancelled : ℕ → Option String)
    → let timeout = if ltb 0 per_attempt then per_attempt else policy.timeout in
      let r = retry policy per_attempt attempt cancelled in
      ((r.attempts ≤ allowed policy)
        × Tried policy (attempt timeout) cancelled (allowed policy - 1) 1 r)
      × (r.waits ≡ schedule policy policy.base_backoff 0 (r.attempts - 1))
unfolding retry wait_at
retry-Tried policy per_attempt attempt cancelled =
    let timeout = if ltb 0 per_attempt then per_attempt else policy.timeout in
    let (tried, (count, (size, waits))) =
      retry_loop-Tried policy (attempt timeout) cancelled policy.base_backoff (allowed policy - 1) 0
        1 in
    let r = retry policy per_attempt attempt cancelled in
    let passed : count ≡ r.attempts - 1 = omega (arith, size) in
    (
      (ground (arith, tried.enough), tried),
      waits ∙ ap (schedule policy policy.base_backoff 0) passed,
    )
