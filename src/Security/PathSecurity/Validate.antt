-- ===== src/Security/PathSecurity/Validate.antt =====
-- `validate_path` of src/security/path_security.rs, with the checks that it calls.
use Prim.Native.String.{◌++◌ as append}
use fuji.Base.{
  ℕ, zero, suc, String, Bool, true, false, ◌||◌, Option, none, some, List, [], ◌∷◌, any, find,
  str_eq, if◌then◌else◌, get, Result, ok, err,
}
use fuji.Mount.Options.Text.{show_usize}
use fuji.Security.Paths.{starts_with, path_starts_with, is_absolute, sibling}
use fuji.Security.PathSecurity.{
  FileSystem, blocked, failed, ValidationResult, verdict, no_events, ValidationStatus,
  PathSecurityValidator, MountSecurityConfig, max_symlink_depth, accepted,
}

-- A path that cannot be resolved is kept as it was given.
abbrev pub absolute : FileSystem → String → String
absolute fs path = elim (fs.tokio_canonicalize path) [
  | some p ↦ p
  | none ↦ elim (fs.canonicalize path) [ some p ↦ p | none ↦ path ]
]

unfoldable pub is_path_blocked : String → PathSecurityValidator → Bool
unfolding starts_with
is_path_blocked path v = any (λ b. starts_with path b) v.blocked_paths

-- Two paths are equal if their components are, and then the first starts with the second.
unfoldable pub matches_dangerous : FileSystem → String → String → Bool
unfolding path_starts_with
matches_dangerous fs path dangerous =
    path_starts_with path dangerous || elim (fs.canonicalize dangerous) [
      | some canonical ↦ path_starts_with path canonical
      | none ↦ false
    ]

-- `left` is how much deeper the links may go.
unfoldable pub follow_links : FileSystem → ℕ → ℕ → String → Result String (Unit {0})
unfolding is_absolute sibling
follow_links fs max_depth zero path = elim (fs.is_symlink path) [
  | ok true ↦ err (append "Symlink depth exceeded maximum allowed depth: " (show_usize max_depth))
  | ok false ↦ ok tt
  | err e ↦ err (append "Failed to check symlink metadata: " e)
]
follow_links fs max_depth (suc n) path = elim (fs.is_symlink path) [
  | ok true ↦ elim (fs.read_link path) [
    | ok target ↦
        follow_links fs max_depth n (if is_absolute target then target else sibling path target)
    | err e ↦ err (append "Failed to read symlink: " e)
  ]
  | ok false ↦ ok tt
  | err e ↦ err (append "Failed to check symlink metadata: " e)
]

unfoldable pub validate_symlink_depth : FileSystem → String → ℕ → Result String (Unit {0})
unfolding follow_links
validate_symlink_depth fs path max_depth = follow_links fs max_depth max_depth path

abbrev pub sensitive_patterns : List String
sensitive_patterns =
    "/etc/" ∷ "/usr/bin/" ∷ "/usr/sbin/" ∷ "/bin/" ∷ "/sbin/" ∷ "/boot/" ∷ "/sys/" ∷ "/proc/" ∷ []

unfoldable pub validate_write_permissions : String → Result String (Unit {0})
unfolding starts_with
validate_write_permissions path =
    elim (find (λ pattern. starts_with path pattern) sensitive_patterns) [
      | some pattern ↦ err (append "Write access denied to sensitive path: " pattern)
      | none ↦ ok tt
    ]

abbrev pub is_write : String → Bool
is_write operation =
    str_eq operation "write"
    || str_eq operation "create"
    || str_eq operation "delete"
    || str_eq operation "execute"

abbrev pub refused : String → ValidationStatus → ValidationResult
refused message status = verdict false (some message) no_events status

-- The last step: what is written is looked at once more.
unfoldable pub check_operation : String → String → ValidationResult
unfolding validate_write_permissions
check_operation path operation =
    if is_write operation
    then elim (validate_write_permissions path) [ ok u ↦ accepted | err e ↦ refused e (failed e) ]
    else accepted

-- Without allowed paths every path of the mount is allowed.
unfoldable pub is_allowed : String → List String → Bool
unfolding path_starts_with
is_allowed path [] = true
is_allowed path (p ∷ ps) = any (λ a. path_starts_with path a) (p ∷ ps)

unfoldable pub check_mount : FileSystem → String → MountSecurityConfig → Option ValidationResult
unfolding path_starts_with is_allowed validate_symlink_depth
check_mount fs path config =
    if path_starts_with path config.mount_point
    then if is_allowed path config.allowed_paths
      then elim (validate_symlink_depth fs path (max_symlink_depth config.security_profile)) [
        | ok u ↦ none
        | err e ↦
            let message = append "Symlink validation failed: " e in
            some (refused message (blocked message))
      ]
      else some (refused "Path not in allowed paths for this mount" (blocked "Security violation"))
    else some (refused "Path escapes mount boundaries" (blocked "Security violation"))

abbrev pub mount_of : Option String → PathSecurityValidator → Option MountSecurityConfig
mount_of none v = none
mount_of (some mount_id) v = get mount_id v.mounts

abbrev pub check_registered :
    FileSystem → String → Option MountSecurityConfig → Option ValidationResult
check_registered fs path none = none
check_registered fs path (some config) = check_mount fs path config

unfoldable pub validate_path :
    FileSystem → String → String → Option String → PathSecurityValidator → ValidationResult
unfolding is_path_blocked matches_dangerous check_mount check_operation
validate_path fs path operation mount_id v =
    let abs_path = absolute fs path in
    if is_path_blocked abs_path v
    then refused "Path is blocked by security policy" (blocked "Path is blocked by security policy")
    else elim (find (matches_dangerous fs abs_path) v.dangerous_system_files) [
      | some dangerous_file ↦
          refused (append "Access to dangerous system file: " dangerous_file)
            (blocked "Access violation")
      | none ↦ elim (check_registered fs abs_path (mount_of mount_id v)) [
        | some refusal ↦ refusal
        | none ↦ check_operation abs_path operation
      ]
    ]
