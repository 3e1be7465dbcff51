-- ===== src/Jobs/Backoff.antt =====
-- jobs/domain/job.py, backoff_for.
use native.Mathlib.Nat.{pow-le-pow_right}
use blitze_cdn_cp.Prelude.{ℕ, ◌^◌, ◌≤◌, max, ◌≡◌, arith}
use blitze_cdn_cp.Jobs.Domain.{backoff_for, seconds}

powers : (a b : ℕ) → a ≤ b → 2 ^ max a 1 ≤ 2 ^ max b 1
powers a b h = pow-le-pow_right {n = 2} (omega arith) (omega arith)

-- A later attempt never waits less than an earlier one; every wait is from two seconds to three
-- hundred, and from the ninth attempt on it is three hundred.
pub backoff_for_lem :
    (a b : ℕ)
    → a ≤ b
    → (backoff_for a ≤ backoff_for b)
      × (seconds 2 ≤ backoff_for a)
      × (backoff_for b ≤ seconds 300)
      × (9 ≤ a → backoff_for a ≡ seconds 300)
unfolding backoff_for seconds
backoff_for_lem a b h = (
  omega (arith, powers a b h),
  omega (arith, powers 0 a (omega arith)),
  omega arith,
  λ late. omega (arith, powers 9 a late),
)
