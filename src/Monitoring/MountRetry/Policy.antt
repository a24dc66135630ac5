-- ===== src/Monitoring/MountRetry/Policy.antt =====
-- The retry policy of a mount in src/monitoring/mount_retry.rs. The parser of floating point numbers of
-- the standard library is an argument.
use fuji.Base.{
  ℕ, ◌+◌, ◌*◌, ◌%◌, ◌^◌, String, Option, none, some, List, [], ◌∷◌, map, leb, ◌&&◌, if◌then◌else◌,
  str_eq, Result, ok, err, ◌>>=◌, ok_or, get, from_secs, from_millis, Decimal,
}
use fuji.Mount.Config.{MountConfig, MountType, nfs, smb, sshfs}
use fuji.Mount.Options.Text.{
  codes, trim, ends_with, parse_u32, parse_usize, split_commas, split_once,
}
use fuji.Monitoring.Retry.{RetryPolicy, default_policy}

pub data PolicyError : Type 0 where
  invalid_max_attempts invalid_duration invalid_multiplier invalid_jitter : PolicyError

unfoldable pub default_retry_policy_for_mount_type : MountType → RetryPolicy
default_retry_policy_for_mount_type (nfs host share options) = record {
  initial_delay = from_millis 500;
  max_delay = from_secs 5;
  multiplier = record { mantissa = 15; decimals = 1 };
  jitter = record { mantissa = 1; decimals = 1 };
  max_attempts = 3;
  reset_after = from_secs 600;
}
default_retry_policy_for_mount_type (smb host share username password domain options) = record {
  initial_delay = from_secs 1;
  max_delay = from_secs 180;
  multiplier = record { mantissa = 18; decimals = 1 };
  jitter = record { mantissa = 15; decimals = 2 };
  max_attempts = 7;
  reset_after = from_secs 300;
}
default_retry_policy_for_mount_type (sshfs host username path private_key password options) =
    record {
      initial_delay = from_secs 3;
      max_delay = from_secs 240;
      multiplier = record { mantissa = 22; decimals = 1 };
      jitter = record { mantissa = 2; decimals = 1 };
      max_attempts = 6;
      reset_after = from_secs 450;
    }

-- `to_lowercase`, as far as durations can tell: see `to_upper`.
abbrev to_lower : ℕ → ℕ
to_lower c = if leb b'A' c && leb c b'Z' then c + 32 else c

-- `&s[..s.len() - 1]`
unfoldable pub drop_last : List ℕ → List ℕ
drop_last [] = []
drop_last (c ∷ []) = []
drop_last (c ∷ d ∷ cs) = c ∷ drop_last (d ∷ cs)

-- A count of seconds, in a `u64` that wraps in a release build.
abbrev seconds : ℕ → Option ℕ → Result PolicyError ℕ
seconds unit (some n) = ok (n * unit % 2 ^ 64)
seconds unit none = err invalid_duration

unfoldable pub parse_duration : String → Result PolicyError ℕ
unfolding drop_last
parse_duration s =
    let cs = map to_lower (codes (trim s)) in
    if ends_with b's' cs
    then seconds 1 (parse_usize (drop_last cs))
    else if ends_with b'm' cs
    then seconds 60 (parse_usize (drop_last cs))
    else if ends_with b'h' cs
    then seconds 3600 (parse_usize (drop_last cs))
    else seconds 1 (parse_usize cs)

-- The part of the value before another `=`, as `split('=')` yields it.
abbrev second_part : String → String
second_part rest = elim (split_once rest) [ some (value, more) ↦ value | none ↦ rest ]

module _ (parse_f64 : String → Option Decimal) where
  unfoldable pub apply_parameter : String → String → RetryPolicy → Result PolicyError RetryPolicy
  unfolding parse_duration
  apply_parameter key value p =
      if str_eq key "max_attempts"
      then ok_or (parse_u32 value) invalid_max_attempts
        >>= (λ n. ok (record p { max_attempts = n }))
      else if str_eq key "initial_delay"
      then parse_duration value >>= (λ n. ok (record p { initial_delay = from_secs n }))
      else if str_eq key "max_delay"
      then parse_duration value >>= (λ n. ok (record p { max_delay = from_secs n }))
      else if str_eq key "multiplier"
      then ok_or (parse_f64 value) invalid_multiplier >>= (λ d. ok (record p { multiplier = d }))
      else if str_eq key "jitter"
      then ok_or (parse_f64 value) invalid_jitter >>= (λ d. ok (record p { jitter = d }))
      else ok p

  unfoldable pub parse_pairs : List String → RetryPolicy → Result PolicyError RetryPolicy
  unfolding apply_parameter
  parse_pairs [] p = ok p
  parse_pairs (pair ∷ pairs) p =
      (elim (split_once pair) [
        | some (key, rest) ↦ apply_parameter (trim key) (second_part rest) p
        | none ↦ ok p
      ])
      >>= (λ q. parse_pairs pairs q)

  unfoldable pub parse_retry_policy_from_metadata : String → Result PolicyError RetryPolicy
  unfolding parse_pairs
  parse_retry_policy_from_metadata metadata = parse_pairs (split_commas metadata) default_policy

  -- The policy that `set_retry_policy_for_mount` stores.
  unfoldable pub policy_for_mount : MountConfig → RetryPolicy
  unfolding parse_retry_policy_from_metadata default_retry_policy_for_mount_type
  policy_for_mount mount = elim (get "retry_policy" mount.metadata) [
    | some retry_config ↦ elim (parse_retry_policy_from_metadata retry_config) [
      | ok p ↦ p
      | err e ↦ default_policy
    ]
    | none ↦ default_retry_policy_for_mount_type mount.mount_type
  ]
