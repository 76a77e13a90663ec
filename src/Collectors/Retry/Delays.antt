-- ===== src/Collectors/Retry/Delays.antt =====
-- Between which bounds the delays stay.
use homeinfra_control_center.Prelude.{ℕ, zero, suc, ◌≤◌, arith}
use homeinfra_control_center.Collectors.Retry.{RetryStrategy, retry_strategy, power, delay_for}

pub record IsStrategy (r : RetryStrategy) : Type 0 where
  pub positive : 100 ≤ r.base_delay
  pub ordered : r.base_delay ≤ r.max_delay
  pub growing : 1 ≤ r.multiplier

pub retry_strategy-IsStrategy :
    (n base_ms max_ms m : ℕ) → IsStrategy (retry_strategy n base_ms max_ms m)
unfolding retry_strategy
retry_strategy-IsStrategy n base_ms max_ms m = ground arith

power_positive : (m k : ℕ) → 1 ≤ m → 1 ≤ power m k
power_positive m zero h = omega arith
power_positive m (suc k) h = let ih = power_positive m k h in grind arith

pub delay_for_bounds :
    (r : RetryStrategy) (attempt : ℕ)
    → IsStrategy r
    → (r.base_delay ≤ delay_for r attempt) × (delay_for r attempt ≤ r.max_delay)
unfolding delay_for
delay_for_bounds r attempt h =
    let grown = power_positive r.multiplier attempt h.growing in grind arith
