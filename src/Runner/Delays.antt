-- ===== src/Runner/Delays.antt =====
-- How long the monitor waits after a failed check.
use native.Mathlib.Nat.{pow-suc}
use agynio.Prelude.{ℕ, zero, suc, ◌+◌, ◌-◌, ◌*◌, ◌^◌, ◌≤◌, min, ◌≡◌, ap, ◌∙◌, arith}
use agynio.Runner.{RunnerConfig, calculate_retry_delay}

twice : (base n : ℕ) → base * 2 ^ suc n ≡ 2 * (base * 2 ^ n)
twice base n = ap (λ x. base * x) (pow-suc 2 n) ∙ omega arith

at_least : (base n : ℕ) → base ≤ base * 2 ^ n
at_least base zero = omega arith
at_least base (suc n) = omega (arith, twice base n, at_least base n)

-- The wait after the failure with a number, apart from the jitter.
abbrev pub plain_delay : RunnerConfig → ℕ → ℕ
plain_delay c failures = calculate_retry_delay c failures 0

-- What is known of the wait after failure `n + 1`.
pub record Bounded (c : RunnerConfig) (n draw : ℕ) : Type 0 where
  pub low : min c.base_delay_ms c.max_delay_ms ≤ calculate_retry_delay c (suc n) draw
  pub high : calculate_retry_delay c (suc n) draw ≤ c.max_delay_ms + c.jitter_ms
  pub jitter : calculate_retry_delay c (suc n) draw ≤ plain_delay c (suc n) + c.jitter_ms
  pub doubles : plain_delay c (suc (suc n)) ≡ min (2 * plain_delay c (suc n)) c.max_delay_ms

plain :
    (c : RunnerConfig) (failures : ℕ)
    → plain_delay c failures ≡ min (c.base_delay_ms * 2 ^ (failures - 1)) c.max_delay_ms
unfolding calculate_retry_delay
plain c failures = ground arith

drawn :
    (c : RunnerConfig) (failures draw : ℕ)
    → draw ≤ c.jitter_ms
    → (plain_delay c failures ≤ calculate_retry_delay c failures draw)
      × (calculate_retry_delay c failures draw ≤ plain_delay c failures + c.jitter_ms)
unfolding calculate_retry_delay
drawn c failures draw h = ground arith

pred : (n : ℕ) → suc n - 1 ≡ n
pred n = omega arith

plain_suc :
    (c : RunnerConfig) (n : ℕ)
    → plain_delay c (suc n) ≡ min (c.base_delay_ms * 2 ^ n) c.max_delay_ms
plain_suc c n = plain c (suc n) ∙ ap (λ k. min (c.base_delay_ms * 2 ^ k) c.max_delay_ms) (pred n)

-- For a draw of the jitter within its bound: the wait after a failure is at least the smaller of the
-- base delay and the maximal delay, and at most the maximal delay and the jitter; without the jitter
-- each wait is twice the one before, up to the maximal delay.
pub retry_delay-Bounded : (c : RunnerConfig) (n draw : ℕ) → draw ≤ c.jitter_ms → Bounded c n draw
retry_delay-Bounded c n draw h =
    let here = plain_suc c n in
    let next = plain_suc c (suc n) in
    let base = at_least c.base_delay_ms n in
    let double = twice c.base_delay_ms n in
    let with_jitter = drawn c (suc n) draw h in
    record {
      low = omega (arith, here, base, with_jitter.0);
      high = omega (arith, here, with_jitter.1);
      jitter = with_jitter.1;
      doubles = omega (arith, here, next, double);
    }
