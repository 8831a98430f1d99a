-- ===== src/Ping.antt =====
-- newt/ping.go: times in nanoseconds, the configuration of the pings, and the scalings by a
-- floating-point factor.
pub mod Attempts
pub mod Check
pub mod Retry
mod Tests
use newt.Prelude.{ℕ, ◌*◌, ◌^◌, ◌≤◌, ◌<◌, Bool}

abbrev pub millisecond : ℕ
millisecond = 1000000

abbrev pub second : ℕ
second = 1000000000

-- What the program relies on of `time.Duration(float64(d) * f)` for f = 1.3, 0.9 and 1.5, as long
-- as the product fits an `int64`.
pub record Scaling : Type 0 where
  pub grow : ℕ → ℕ
  pub shrink : ℕ → ℕ
  pub delay : ℕ → ℕ
  pub grow-ge : (d : ℕ) → d ≤ 2 ^ 62 → d ≤ grow d
  pub shrink-le : (d : ℕ) → d ≤ 2 ^ 40 → 10 * shrink d ≤ 9 * d
  pub delay-ge : (d : ℕ) → d ≤ 2 ^ 62 → d ≤ delay d

pub record PingConfig : Type 0 where
  pub ping_interval : ℕ
  pub ping_timeout : ℕ
  pub health_file : Bool
