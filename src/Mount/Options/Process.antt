-- ===== src/Mount/Options/Process.antt =====
-- `process_key_value_option` and `process_boolean_option` of src/mount/options.rs. A `match` on the
-- name of an option is a table of the names it has arms for.
use fuji.Base.{
  ℕ, ◌==◌, ◌||◌, String, Bool, true, false, Option, none, some, List, [], ◌∷◌, any, str_eq,
  if◌then◌else◌, Result, ok, err, ◌>>=◌, ok_or, Dict, get, insert, contains_key,
}
use fuji.Mount.Options.{
  PerformanceOptions, OptionError, invalid_uid, invalid_gid, invalid_file_mode, invalid_dir_mode,
  invalid_timeout, invalid_retrans, invalid_nfs_version, conflicting_ro_rw, Parsed,
}
use fuji.Mount.Options.Text.{codes, parse_u32, parse_mode, parse_size, show_usize}

pub data SecurityKey : Type 0 where
  uid_key gid_key file_mode_key dir_mode_key other_security : SecurityKey

pub data PerformanceKey : Type 0 where
  rsize_key wsize_key timeo_key retrans_key nfsvers_key vers_key other_performance : PerformanceKey

pub data Flag : Type 0 where
  ro rw_flag nosuid_flag nodev_flag noexec_flag suid_flag soft_flag hard intr_flag nointr
        other_flag :
      Flag

abbrev pub or_else {ℓ} : {A : Type ℓ} → A → Option A → A
or_else a none = a
or_else a (some b) = b

abbrev security_keys : Dict SecurityKey
security_keys =
    ("uid", uid_key)
    ∷ ("gid", gid_key)
    ∷ ("fmode", file_mode_key)
    ∷ ("file_mode", file_mode_key)
    ∷ ("dmode", dir_mode_key)
    ∷ ("dir_mode", dir_mode_key)
    ∷ []

abbrev performance_keys : Dict PerformanceKey
performance_keys =
    ("rsize", rsize_key)
    ∷ ("wsize", wsize_key)
    ∷ ("timeo", timeo_key)
    ∷ ("retrans", retrans_key)
    ∷ ("nfsvers", nfsvers_key)
    ∷ ("vers", vers_key)
    ∷ []

-- The arms for `noatime` and `relatime` do what the last arm does.
abbrev flags : Dict Flag
flags =
    ("ro", ro)
    ∷ ("rw", rw_flag)
    ∷ ("nosuid", nosuid_flag)
    ∷ ("nodev", nodev_flag)
    ∷ ("noexec", noexec_flag)
    ∷ ("suid", suid_flag)
    ∷ ("soft", soft_flag)
    ∷ ("hard", hard)
    ∷ ("intr", intr_flag)
    ∷ ("nointr", nointr)
    ∷ []

unfoldable pub security_key : String → SecurityKey
security_key key = or_else other_security (get key security_keys)

unfoldable pub performance_key : String → PerformanceKey
performance_key key = or_else other_performance (get key performance_keys)

unfoldable pub flag_of : String → Flag
flag_of option = or_else other_flag (get option flags)

abbrev pub store : String → String → Parsed → Parsed
store key value p = record p { options = insert key value p.options }

-- The first `match` on the key.
unfoldable pub security_option : SecurityKey → String → String → Parsed → Result OptionError Parsed
security_option uid_key key value p = do
  n ← ok_or (parse_u32 value) invalid_uid
  ok (record p { security = record (p.security) { uid = some n } })
security_option gid_key key value p = do
  n ← ok_or (parse_u32 value) invalid_gid
  ok (record p { security = record (p.security) { gid = some n } })
security_option file_mode_key key value p = do
  mode ← ok_or (parse_mode value) invalid_file_mode
  ok (record p { security = record (p.security) { fmode = some mode } })
security_option dir_mode_key key value p = do
  mode ← ok_or (parse_mode value) invalid_dir_mode
  ok (record p { security = record (p.security) { dmode = some mode } })
security_option other_security key value p = ok (store key value p)

abbrev starts_with : ℕ → List ℕ → Bool
starts_with c [] = false
starts_with c (d ∷ ds) = d == c

abbrev set_vers : String → PerformanceOptions → PerformanceOptions
set_vers value o =
    if starts_with b'3' (codes value) || starts_with b'4' (codes value)
    then record o { vers = some value }
    else if any (λ v. str_eq v value) ("1.0" ∷ "2.0" ∷ "2.1" ∷ "3.0" ∷ [])
    then record o { vers_smb = some value }
    else o

-- The second `match` on the key.
unfoldable pub performance_option :
    PerformanceKey → String → String → Parsed → Result OptionError Parsed
performance_option rsize_key key value p = do
  size ← parse_size value
  ok (
      store key (show_usize size)
        (record p { performance = record (p.performance) { rsize = some size } }))
performance_option wsize_key key value p = do
  size ← parse_size value
  ok (
      store key (show_usize size)
        (record p { performance = record (p.performance) { wsize = some size } }))
performance_option timeo_key key value p = do
  n ← ok_or (parse_u32 value) invalid_timeout
  ok (record p { performance = record (p.performance) { timeo = some n } })
performance_option retrans_key key value p = do
  n ← ok_or (parse_u32 value) invalid_retrans
  ok (record p { performance = record (p.performance) { retrans = some n } })
performance_option nfsvers_key key value p = do
  n ← ok_or (parse_u32 value) invalid_nfs_version
  ok (record p { performance = record (p.performance) { nfsvers = some n } })
performance_option vers_key key value p =
    ok (record p { performance = set_vers value p.performance })
performance_option other_performance key value p = ok p

unfoldable pub process_key_value_option : String → String → Parsed → Result OptionError Parsed
unfolding security_key performance_key security_option performance_option
process_key_value_option key value p = do
  q ← security_option (security_key key) key value (store key value p)
  performance_option (performance_key key) key value q

unfoldable pub set_flag : Flag → String → Parsed → Result OptionError Parsed
set_flag ro option p =
    if contains_key "rw" p.options
    then err conflicting_ro_rw
    else ok (store option "" (record p { security = record (p.security) { read_only = true } }))
set_flag rw_flag option p =
    if contains_key "ro" p.options
    then err conflicting_ro_rw
    else ok (store option "" (record p { security = record (p.security) { read_only = false } }))
set_flag nosuid_flag option p =
    ok (
      store option "" (record p { security = record (p.security) { nosuid = true; suid = false } }))
set_flag nodev_flag option p =
    ok (store option "" (record p { security = record (p.security) { nodev = true } }))
set_flag noexec_flag option p =
    ok (store option "" (record p { security = record (p.security) { noexec = true } }))
set_flag suid_flag option p =
    ok (
      store option "" (record p { security = record (p.security) { suid = true; nosuid = false } }))
set_flag soft_flag option p =
    ok (store option "" (record p { performance = record (p.performance) { soft = true } }))
set_flag hard option p =
    ok (store option "" (record p { performance = record (p.performance) { soft = false } }))
set_flag intr_flag option p =
    ok (store option "" (record p { performance = record (p.performance) { intr = true } }))
set_flag nointr option p =
    ok (store option "" (record p { performance = record (p.performance) { intr = false } }))
set_flag other_flag option p = ok (store option "" p)

unfoldable pub process_boolean_option : String → Parsed → Result OptionError Parsed
unfolding flag_of set_flag
process_boolean_option option p = set_flag (flag_of option) option p
