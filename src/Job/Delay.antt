-- ===== src/Job/Delay.antt =====
-- The delay before a job runs again.
use cloud_box.Base.{ℕ, zero, suc, ◌*◌, ◌≤◌, ◌≡◌, refl, arith}
use Prim.Native.Nat.{min}
use cloud_box.Job.Runner.{default_retry_delay, second}

late_delay : (n : ℕ) → 6 ≤ n → default_retry_delay n ≡ 32 * second
unfolding default_retry_delay
late_delay n h = ground arith

-- Exponential back-off with a cap: the first delay is one second, each later one twice the one
-- before it, and none is longer than 32 seconds.
pub default_retry_delay-suc :
    (n : ℕ)
    → 1 ≤ n
    → (default_retry_delay 1 ≡ second)
      × (default_retry_delay (suc n) ≡ min (2 * default_retry_delay n) (32 * second))
unfolding default_retry_delay
default_retry_delay-suc zero h = absurd (omega arith)
default_retry_delay-suc (suc zero) h = (refl, refl)
default_retry_delay-suc (suc (suc zero)) h = (refl, refl)
default_retry_delay-suc (suc (suc (suc zero))) h = (refl, refl)
default_retry_delay-suc (suc (suc (suc (suc zero)))) h = (refl, refl)
default_retry_delay-suc (suc (suc (suc (suc (suc zero))))) h = (refl, refl)
default_retry_delay-suc (suc (suc (suc (suc (suc (suc n)))))) h = (
  refl,
  omega (
    arith,
    late_delay (suc (suc (suc (suc (suc (suc n)))))) (omega arith),
    late_delay (suc (suc (suc (suc (suc (suc (suc n))))))) (omega arith),
  ),
)
