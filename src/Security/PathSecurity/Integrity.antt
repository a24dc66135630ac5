-- ===== src/Security/PathSecurity/Integrity.antt =====
-- The registration of mounts in src/security/path_security.rs and the checks of their integrity.
use Prim.Native.String.{◌++◌ as append}
use fuji.Base.{
  ℕ, ◌-◌, ◌/◌, String, Bool, true, false, Option, none, some, List, [], ◌∷◌, any, find, ltb, str_eq,
  if◌then◌else◌, Dict, get, insert, Result, ok, err,
}
use fuji.Mount.Options.Text.{show_usize}
use fuji.Security.Paths.{contains, path_starts_with}
use fuji.Security.PathSecurity.{
  FileSystem, blocked, ValidationResult, path_validation, IntegrityStatus, max_mount_age,
  profile_name, PathSecurityValidator, MountSecurityConfig, log_security_event, accepted,
}
use fuji.Security.PathSecurity.Validate.{refused}

abbrev pub dangerous_locations : List String
dangerous_locations =
    "/bin" ∷ "/sbin" ∷ "/usr/bin" ∷ "/usr/sbin" ∷ "/etc" ∷ "/boot" ∷ "/sys" ∷ "/proc" ∷ "/dev" ∷ []

unfoldable pub validate_mount_point : FileSystem → String → Result String ValidationResult
unfolding path_starts_with
validate_mount_point fs mount_point =
    if fs.exists mount_point
    then if fs.is_dir mount_point
      then elim (find (path_starts_with mount_point) dangerous_locations) [
        | some location ↦
            let message = append "Mount point in dangerous location: " location in
            ok (refused message (blocked message))
        | none ↦ ok accepted
      ]
      else err (append "Mount point is not a directory: " mount_point)
    else err (append "Mount point does not exist: " mount_point)

abbrev pub integrity_hash : String → ℕ → Option String
integrity_hash mount_point nanos =
    some (append mount_point (append "-" (show_usize (nanos / 1_000_000_000))))

unfoldable pub calculate_mount_integrity_hash : FileSystem → String → Result String (Option String)
calculate_mount_integrity_hash fs mount_point = elim (fs.modified mount_point) [
  | ok nanos ↦ ok (integrity_hash mount_point nanos)
  | err e ↦ err e
]

abbrev pub new_config :
    ℕ
    → String
    → String
    → String
    → List String
    → Option String
    → PathSecurityValidator
    → MountSecurityConfig
new_config now mount_id mount_point source_path allowed_paths hash v = record {
  mount_id = mount_id;
  mount_point = mount_point;
  source_path = source_path;
  mount_time = now;
  allowed_paths = allowed_paths;
  security_profile = v.security_profile;
  integrity_hash = hash;
}

-- The verdict on the mount point is not looked at, only whether there is one. The instant and the
-- time of the event are one argument.
unfoldable pub register_mount :
    FileSystem
    → ℕ
    → String
    → String
    → String
    → List String
    → PathSecurityValidator
    → PathSecurityValidator × Result String (Unit {0})
unfolding validate_mount_point calculate_mount_integrity_hash log_security_event
register_mount fs now mount_id mount_point source_path allowed_paths v =
    elim (validate_mount_point fs mount_point) [
      | err e ↦ (v, err "Mount point validation failed")
      | ok checked ↦ elim (calculate_mount_integrity_hash fs mount_point) [
        | err e ↦ (v, err e)
        | ok hash ↦
            let config = new_config now mount_id mount_point source_path allowed_paths hash v in
            let event = path_validation mount_point "mount_registration" accepted now (
              ("mount_id", mount_id)
              ∷ ("security_profile", profile_name v.security_profile)
              ∷ []) in
            (
              log_security_event event (record v { mounts = insert mount_id config v.mounts }),
              ok tt,
            )
      ]
    ]

abbrev pub suspicious_patterns : List String
suspicious_patterns = "su" ∷ "passwd" ∷ "shadow" ∷ "sudoers" ∷ []

-- A time in the future counts as now.
abbrev pub modified_recently : FileSystem → ℕ → String → Bool
modified_recently fs now mount_point = elim (fs.modified mount_point) [
  | ok nanos ↦ ltb ((now - nanos) / 1_000_000_000) 300
  | err e ↦ false
]

abbrev pub has_suspicious_file : FileSystem → String → Bool
has_suspicious_file fs mount_point = elim (fs.read_dir mount_point) [
  | some (names, broken) ↦ any (λ name. any (contains name) suspicious_patterns) names
  | none ↦ false
]

unfoldable pub check_mount_integrity :
    FileSystem → ℕ → String → String → PathSecurityValidator → IntegrityStatus
unfolding contains
check_mount_integrity fs now mount_id mount_point v =
    let looked =
      if has_suspicious_file fs mount_point
      then IntegrityStatus.suspicious
      else IntegrityStatus.intact in
    if fs.exists mount_point
    then elim (get mount_id v.mounts) [
      | some config ↦
          if modified_recently fs now mount_point
          then IntegrityStatus.requires_verification
          else looked
      | none ↦ looked
    ]
    else IntegrityStatus.failed

-- Suspicious files are only logged: what fails is the reading of the directory.
unfoldable pub check_suspicious_files : FileSystem → String → Result String (Unit {0})
check_suspicious_files fs mount_point = elim (fs.read_dir mount_point) [
  | some (names, true) ↦ err "read_dir"
  | some (names, false) ↦ ok tt
  | none ↦ ok tt
]

unfoldable pub validate_mount_integrity :
    FileSystem → ℕ → MountSecurityConfig → Result String IntegrityStatus
unfolding calculate_mount_integrity_hash check_suspicious_files
validate_mount_integrity fs now config =
    if fs.exists config.mount_point
    then if ltb (max_mount_age config.security_profile) (now - config.mount_time)
      then ok IntegrityStatus.modified
      else elim (calculate_mount_integrity_hash fs config.mount_point) [
        | err e ↦ err e
        | ok none ↦ ok IntegrityStatus.requires_verification
        | ok (some current) ↦ elim config.integrity_hash [
          | none ↦ ok IntegrityStatus.requires_verification
          | some stored ↦
              if str_eq stored current
              then elim (check_suspicious_files fs config.mount_point) [
                | ok u ↦ ok IntegrityStatus.intact
                | err e ↦ ok IntegrityStatus.suspicious
              ]
              else ok IntegrityStatus.suspicious
        ]
      ]
    else ok IntegrityStatus.failed

unfoldable pub validate_all_mounts :
    FileSystem → ℕ → Dict MountSecurityConfig → Result String (List (String × IntegrityStatus))
unfolding validate_mount_integrity
validate_all_mounts fs now [] = ok []
validate_all_mounts fs now ((id, config) ∷ mounts) =
    let rest = validate_all_mounts fs now mounts in
    elim (validate_mount_integrity fs now config) [
      | err e ↦ err e
      | ok status ↦ elim rest [ ok statuses ↦ ok ((id, status) ∷ statuses) | err e ↦ err e ]
    ]
