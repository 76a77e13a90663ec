-- ===== src/Collectors/Retry.antt =====
-- `RetryStrategy` of homeinfra/collectors.py. A delay is counted in milliseconds and the multiplier is
-- a whole number: the program only uses the default, 2.
pub mod Delays
use homeinfra_control_center.Prelude.{ℕ, zero, suc, ◌*◌, max, min}

pub record RetryStrategy : Type 0 where
  pub max_retries : ℕ
  pub base_delay : ℕ
  pub max_delay : ℕ
  pub multiplier : ℕ

-- The constructor, which holds its arguments to their least values.
unfoldable pub retry_strategy : ℕ → ℕ → ℕ → ℕ → RetryStrategy
retry_strategy max_retries base_delay_ms max_delay_ms backoff_multiplier =
    let base = max 100 base_delay_ms in
    record {
      max_retries = max_retries;
      base_delay = base;
      max_delay = max base max_delay_ms;
      multiplier = max 1 backoff_multiplier;
    }

abbrev pub power : ℕ → ℕ → ℕ
power m zero = 1
power m (suc k) = m * power m k

unfoldable pub delay_for : RetryStrategy → ℕ → ℕ
delay_for r attempt = min (r.base_delay * power r.multiplier attempt) r.max_delay
