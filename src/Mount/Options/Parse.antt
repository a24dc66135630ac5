-- ===== src/Mount/Options/Parse.antt =====
-- `parse`, `apply_defaults`, `validate_options` and `format` of src/mount/options.rs.
use Prim.Native.String.{◌++◌ as append}
use fuji.Base.{
  ℕ, String, Bool, true, false, ◌&&◌, ◌||◌, not, Option, none, some, List, [], ◌∷◌, map, leb, ltb,
  ◌==◌, if◌then◌else◌, str_eq, str_leb, sort_by, Result, ok, ◌>>=◌, ◌>>◌, bail_if, contains_key,
}
use fuji.Mount.Options.{
  PerformanceOptions, MountOptions, default_security, default_performance, OptionError,
  conflicting_ro_rw, zero_timeout, unsupported_nfs_version, rsize_too_small, rsize_too_large,
  wsize_too_small, wsize_too_large, timeout_out_of_range, Parsed,
}
use fuji.Mount.Options.Text.{is_empty, trim, split_commas, split_once}
use fuji.Mount.Options.Process.{store, process_key_value_option, process_boolean_option}

-- One option of the list.
unfoldable pub process_option : String → Parsed → Result OptionError Parsed
unfolding split_once process_key_value_option process_boolean_option
process_option opt p = if is_empty opt then ok p else elim (split_once opt) [
  | some (key, value) ↦ process_key_value_option key value p
  | none ↦ process_boolean_option opt p
]

unfoldable pub process_all : List String → Parsed → Result OptionError Parsed
unfolding process_option
process_all [] p = ok p
process_all (opt ∷ raw) p = do q ← process_option opt p; process_all raw q

unfoldable pub normalize_fs_type : String → String
normalize_fs_type fs_type =
    if str_eq fs_type "cifs"
    then "cifs"
    else if str_eq fs_type "smbfs"
    then "cifs"
    else if str_eq fs_type "nfs4"
    then "nfs"
    else fs_type

abbrev with_performance : (PerformanceOptions → PerformanceOptions) → Parsed → Parsed
with_performance f p = record p { performance = f p.performance }

-- A default for an option that is not in the map.
unfoldable pub default_to :
    String → String → (PerformanceOptions → PerformanceOptions) → Parsed → Parsed
default_to key value set p =
    if contains_key key p.options then p else store key value (with_performance set p)

-- A default where neither an option nor its opposite is in the map.
unfoldable pub default_unless :
    String → String → (PerformanceOptions → PerformanceOptions) → Parsed → Parsed
default_unless key opposite set p =
    if not (contains_key key p.options) && not (contains_key opposite p.options)
    then store key "" (with_performance set p)
    else p

unfoldable pub default_sizes : Parsed → Parsed
default_sizes p =
    default_to "wsize" "1048576" (λ o. record o { wsize = some 1_048_576 })
      (default_to "rsize" "1048576" (λ o. record o { rsize = some 1_048_576 }) p)

unfoldable pub default_modes : Parsed → Parsed
default_modes p =
    default_unless "intr" "nointr" (λ o. record o { intr = true })
      (default_unless "hard" "soft" (λ o. record o { soft = false }) p)

unfoldable pub nfs_defaults : Parsed → Parsed
nfs_defaults p =
    default_to "retrans" "2" (λ o. record o { retrans = some 2 })
      (default_to "timeo" "600" (λ o. record o { timeo = some 600 })
        (default_sizes (default_modes p)))

unfoldable pub default_rw : Parsed → Parsed
default_rw p =
    if not (contains_key "rw" p.options) && not (contains_key "ro" p.options)
    then store "rw" "" (record p { security = record (p.security) { read_only = false } })
    else p

unfoldable pub cifs_defaults : Parsed → Parsed
cifs_defaults p = default_sizes (default_rw p)

unfoldable pub sshfs_defaults : Parsed → Parsed
sshfs_defaults p =
    default_to "default_permissions" "" (λ o. o) (default_to "allow_other" "" (λ o. o) p)

unfoldable pub apply_defaults : String → Parsed → Parsed
apply_defaults fs_type p =
    if str_eq fs_type "nfs"
    then nfs_defaults p
    else if str_eq fs_type "cifs" || str_eq fs_type "smbfs"
    then cifs_defaults p
    else if str_eq fs_type "sshfs"
    then sshfs_defaults p
    else p

-- A test of a value that may be absent.
abbrev pub on_some : Option ℕ → (ℕ → Bool) → Bool
on_some none test = false
on_some (some n) test = test n

unfoldable pub validate_sizes : PerformanceOptions → Result OptionError (Unit {0})
validate_sizes o =
    bail_if (on_some o.rsize (λ n. ltb n 1024)) rsize_too_small
    >> bail_if (on_some o.rsize (λ n. ltb 104_857_600 n)) rsize_too_large
    >> bail_if (on_some o.wsize (λ n. ltb n 1024)) wsize_too_small
    >> bail_if (on_some o.wsize (λ n. ltb 104_857_600 n)) wsize_too_large

unfoldable pub validate_nfs : PerformanceOptions → Result OptionError (Unit {0})
unfolding validate_sizes
validate_nfs o =
    bail_if (on_some o.nfsvers (λ n. not (leb 3 n && leb n 4))) unsupported_nfs_version
    >> validate_sizes o
    >> bail_if (on_some o.timeo (λ n. not (leb 1 n && leb n 3600))) timeout_out_of_range

unfoldable pub validate_options : Parsed → String → Result OptionError (Unit {0})
unfolding validate_nfs validate_sizes
validate_options p fs_type =
    bail_if (p.security.read_only && contains_key "rw" p.options) conflicting_ro_rw
    >> bail_if (not p.performance.soft && on_some p.performance.timeo (λ n. n == 0)) zero_timeout
    >> (if str_eq fs_type "nfs" then validate_nfs p.performance else ok tt)
    >> (if str_eq fs_type "cifs" then validate_sizes p.performance else ok tt)

abbrev pub start : Parsed
start = record { options = []; security = default_security; performance = default_performance }

abbrev pub raw_options : String → List String
raw_options options_str = map trim (split_commas options_str)

-- The defaults and the checks once every option is processed.
unfoldable pub finish : List String → String → Parsed → Result OptionError MountOptions
finish raw fs_type p =
    let q = apply_defaults fs_type p in
    validate_options q fs_type
    >> ok (record {
      raw = raw;
      options = q.options;
      fs_type = normalize_fs_type fs_type;
      security = q.security;
      performance = q.performance;
    })

unfoldable pub parse : String → String → Result OptionError MountOptions
parse options_str fs_type = do
  p ← process_all (raw_options options_str) start
  finish (raw_options options_str) fs_type p

abbrev pub format_option : String × String → String
format_option (key, value) = if is_empty value then key else append key (append "=" value)

unfoldable pub join_commas : List String → String
join_commas [] = ""
join_commas (s ∷ []) = s
join_commas (s ∷ t ∷ ss) = append s (append "," (join_commas (t ∷ ss)))

unfoldable pub format : MountOptions → String
unfolding join_commas
format o = join_commas (map format_option (sort_by (λ a b. str_leb (a.0) (b.0)) o.options))
