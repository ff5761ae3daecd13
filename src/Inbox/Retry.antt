-- ===== src/Inbox/Retry.antt =====
-- src/shared/events/retry.ts: the retry schedule. `Math.random()` is a fraction below one, and the
-- arithmetic on it is exact.
use native.Mathlib.Nat.{
  div-le_of_le-mul, mul-le-mul_right, lt_of_mul-lt-mul_right, lt-mul-div-succ, mul_comm, mul_assoc,
}
use n2f_nest.Prelude.{ℕ, ◌+◌, ◌-◌, ◌*◌, ◌/◌, ◌^◌, ◌≤◌, ◌<◌, Bool, arith, leb, min}

pub record RetryPolicy : Type 0 where
  pub max_attempts : ℕ
  pub base_ms : ℕ
  pub max_ms : ℕ

-- DEFAULT_RETRY
abbrev pub default_retry : RetryPolicy
default_retry = record { max_attempts = 12; base_ms = 500; max_ms = 300000 }

-- `part / whole`
pub record Fraction : Type 0 where
  pub part : ℕ
  pub whole : ℕ

-- `Math.min(policy.maxMs, policy.baseMs * 2 ** exponent)`
unfoldable pub ceiling : RetryPolicy → ℕ → ℕ
ceiling policy attempt = min policy.max_ms (policy.base_ms * 2 ^ min (attempt - 1) 30)

-- `retryDelay`: `Math.floor(ceiling / 2 + random() * (ceiling / 2))`, over one denominator.
unfoldable pub retry_delay : RetryPolicy → ℕ → Fraction → ℕ
retry_delay policy attempt random =
    (ceiling policy attempt * random.whole + random.part * ceiling policy attempt)
    / (2 * random.whole)

-- `exhausted`
unfoldable pub exhausted : RetryPolicy → ℕ → Bool
exhausted policy attempt = leb policy.max_attempts attempt

-- `c` is the ceiling, `w` the denominator, and `n` the numerator of the delay.
half_at_least : (c w n : ℕ) → 1 ≤ w → c * w ≤ n → c < 2 * (n / (2 * w) + 1)
half_at_least c w n pos le = lt_of_mul-lt-mul_right w (
    omega (
      arith,
      lt-mul-div-succ n {b = 2 * w} (omega (arith, pos)),
      le,
      mul_comm (2 * w) (n / (2 * w) + 1),
      mul_assoc 2 (n / (2 * w) + 1) w,
      mul_comm (n / (2 * w) + 1) w,
      mul_assoc 2 w (n / (2 * w) + 1),
    ))

whole_at_most : (c w p : ℕ) → p ≤ w → (c * w + p * c) / (2 * w) ≤ c
whole_at_most c w p le =
    div-le_of_le-mul (2 * w) (omega (arith, mul-le-mul_right c le, mul_comm c w, mul_assoc 2 w c))

-- The delay after any attempt is between half of the ceiling, rounded down, and the ceiling, which is at most the
-- longest delay of the policy.
pub retry_delay_bounds :
    (policy : RetryPolicy) (attempt : ℕ) (random : Fraction)
    → random.part < random.whole
    → (ceiling policy attempt ≤ 2 * retry_delay policy attempt random + 1)
      × (retry_delay policy attempt random ≤ ceiling policy attempt)
      × (ceiling policy attempt ≤ policy.max_ms)
unfolding retry_delay ceiling
retry_delay_bounds policy attempt random lt =
    let c = min policy.max_ms (policy.base_ms * 2 ^ min (attempt - 1) 30) in
    (
      omega (
        arith,
        half_at_least c random.whole (c * random.whole + random.part * c) (omega (arith, lt))
            (omega arith),
      ),
      whole_at_most c random.whole random.part (omega (arith, lt)),
      omega arith,
    )
