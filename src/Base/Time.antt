-- ===== src/Base/Time.antt =====
-- Durations and times in nanoseconds, and the decimal numbers of the configuration.
use Prim.Native.Nat.{ℕ, ◌*◌, ◌-◌, ◌/◌, ◌^◌}

-- An `f64` that is only stored and handed on: the decimal that it is written as.
pub record Decimal : Type 0 where
  pub mantissa : ℕ
  pub decimals : ℕ

abbrev pub from_secs : ℕ → ℕ
from_secs n = n * 1_000_000_000

abbrev pub from_millis : ℕ → ℕ
from_millis n = n * 1_000_000

-- `Duration::MAX`, which is 2^64 - 1 seconds and 999_999_999 nanoseconds.
abbrev pub duration_max : ℕ
duration_max = 2 ^ 64 * 1_000_000_000 - 1

abbrev pub minutes : ℕ → ℕ
minutes n = from_secs (n * 60)

-- `timestamp_millis` of a time that is nanoseconds after the epoch.
abbrev pub timestamp_millis : ℕ → ℕ
timestamp_millis t = t / 1_000_000
