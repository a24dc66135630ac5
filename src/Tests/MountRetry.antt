-- ===== src/Tests/MountRetry.antt =====
-- A reconnection by src/monitoring/mount_retry.rs at its second attempt.
use fuji.Base.{
  ℕ, ◌+◌, ◌*◌, ◌≡◌, refl, String, Option, none, some, ok, err, leb, if◌then◌else◌, get, from_secs,
  Decimal,
}
use fuji.Mount.Config.{MountConfig}
use fuji.Config.Operations.{get_mount}
use fuji.Mount.Options.Text.{split_commas, split_once, trim_end, trim_start, parse_u32, parse_usize}
use fuji.Monitoring.Retry.{new, default_policy}
use fuji.Monitoring.Retry.Loop.{Round}
use fuji.Monitoring.MountRetry.{Shared, Answers, attempt_reconnection}
use fuji.Monitoring.MountRetry.Policy.{parse_retry_policy_from_metadata}
use fuji.Monitoring.MountRetry.Outcome.{Reconnects, attempt_reconnection-Reconnects}
use fuji.Tests.Merge.{share, config_of}

-- No policy of this file has a floating point number.
abbrev no_float : String → Option Decimal
no_float s = none

custom_policy :
    parse_retry_policy_from_metadata no_float "max_attempts=4, max_delay=2m"
    ≡ ok (record default_policy { max_attempts = 4; max_delay = from_secs 120 })
unfolding parse_retry_policy_from_metadata split_commas split_once trim_end trim_start parse_u32
    parse_usize
custom_policy = refl

abbrev mount : MountConfig
mount = (share "/mnt/a").config

abbrev shared : Shared
shared = record { handler = new; config = config_of "a" "/mnt/a" }

abbrev attempt : ℕ → Round (Unit {0})
attempt n = record {
  checked_at = n * 100;
  blocked_at = n * 100 + 1;
  outcome = if leb 2 n then ok tt else err "refused";
  failed_at = n * 100 + 50;
  next_backoff = some (from_secs 1);
}

abbrev answers : Answers
answers = record {
  asked_at = 1;
  reconnecting_at = 2;
  mount_asked_at = 3;
  rounds = attempt;
  done_at = 900;
}

mount_is_there : get_mount "m" shared.config ≡ some mount
unfolding get_mount get
mount_is_there = refl

attempt_reconnection-Reconnects_example :
    Reconnects no_float answers mount shared mount
      (attempt_reconnection no_float answers mount shared)
attempt_reconnection-Reconnects_example =
    attempt_reconnection-Reconnects no_float answers mount shared mount mount_is_there
