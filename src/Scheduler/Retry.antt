-- ===== src/Scheduler/Retry.antt =====
-- The back-off of failed jobs.
use native.Mathlib.Nat.{pow-suc, pow-le-pow_right, mul-le-mul_left}
use n4x_core.Prelude.{ℕ, suc, ◌+◌, ◌-◌, ◌*◌, ◌^◌, ◌≤◌, min, ◌≡◌, refl, ap, ◌∙◌, arith}
use n4x_core.Prelude.Integers.{pos}
use n4x_core.Kernel.Jobs.{TriggerRevision}
use n4x_core.Scheduler.Jobs.{or_default, retry_delay_seconds}

-- For a policy whose base (30 seconds if it names none) and maximum (300 seconds) are not negative:
-- the back-off is not negative, never passes the maximum, never shrinks from one attempt to a later
-- one, and is the base at the first attempt and twice the last one at each later attempt, as long as
-- these are within the maximum.
pub retry_delay_seconds_lem :
    (t : TriggerRevision) (base most a b : ℕ)
    → or_default t.retry_base_seconds (pos 30) ≡ pos base
    → or_default t.retry_max_seconds (pos 300) ≡ pos most
    → a ≤ b
    → (x : ℕ) × (y : ℕ) × (retry_delay_seconds t a ≡ pos x)
      × (retry_delay_seconds t b ≡ pos y)
      × (x ≤ y)
      × (y ≤ most)
      × (base ≤ most → retry_delay_seconds t 1 ≡ pos base)
      × (1 ≤ b → 2 * y ≤ most → retry_delay_seconds t (b + 1) ≡ pos (2 * y))
unfolding retry_delay_seconds
retry_delay_seconds_lem t base most a b has_base has_most h =
    (delay a, delay b, at a, at b, mono, omega arith, first, double)
  where
    delay : ℕ → ℕ
    delay n = min most (base * 2 ^ (n - 1))

    at : (n : ℕ) → retry_delay_seconds t n ≡ pos (delay n)
    at n = rw (has_base, has_most) refl

    power : 2 ^ (a - 1) ≤ 2 ^ (b - 1)
    power = pow-le-pow_right (omega arith) (omega arith)

    mono : min most (base * 2 ^ (a - 1)) ≤ min most (base * 2 ^ (b - 1))
    mono = omega (arith, mul-le-mul_left base power)

    first : base ≤ most → retry_delay_seconds t 1 ≡ pos base
    first fits = at 1 ∙ ap pos (omega arith)

    next : 1 ≤ b → base * 2 ^ (b + 1 - 1) ≡ 2 * (base * 2 ^ (b - 1))
    next one =
        let e : b + 1 - 1 ≡ suc (b - 1) = omega arith in rw (e, pow-suc 2 (b - 1)) (omega arith)

    double : 1 ≤ b → 2 * delay b ≤ most → retry_delay_seconds t (b + 1) ≡ pos (2 * delay b)
    double one fits = at (b + 1) ∙ ap pos (omega (arith, next one))
