-- ===== src/Tests/PathSecurity.antt =====
-- Runs of the validator of src/security/path_security.rs.
use fuji.Base.{
  ℕ, String, true, false, none, some, [], ◌∷◌, ◌≡◌, refl, ◌⊎◌, ◌↔◌, get, Result, ok, err,
}
use fuji.Security.PathSecurity.{
  FileSystem, PathSecurityValidator, MountSecurityConfig, standard, new_validator, is_safe,
}
use fuji.Security.PathSecurity.Validate.{validate_path}
use fuji.Security.PathSecurity.Allowed.{IsAcceptable}
use fuji.Security.PathSecurity.Accepted.{validate_path-safe_iff}
use fuji.Security.PathSecurity.Integrity.{new_config, register_mount}
use fuji.Security.PathSecurity.Registered.{register_mount_cases}

-- Every path is a directory in its canonical form.
abbrev plain : FileSystem
plain = record {
  tokio_canonicalize = λ p. some p;
  canonicalize = λ p. some p;
  exists = λ p. true;
  is_dir = λ p. true;
  is_symlink = λ p. ok false;
  read_link = λ p. err "not a link";
  modified = λ p. ok 5_000_000_000;
  read_dir = λ p. none;
}

abbrev config : MountSecurityConfig
config = new_config 1 "m" "/mnt/m" "host:/share" ("/mnt/m/data" ∷ []) none (new_validator standard)

abbrev validator : PathSecurityValidator
validator = record (new_validator standard) {
  mounts = ("m", config) ∷ [];
  blocked_paths = "/mnt/m/old" ∷ [];
}

file_accepted : is_safe (validate_path plain "/mnt/m//data/./a" "write" (some "m") validator) ≡ true
unfolding validate_path get
file_accepted = refl

neighbour_refused :
    is_safe (validate_path plain "/mnt/m/database" "read" (some "m") validator) ≡ false
unfolding validate_path get
neighbour_refused = refl

-- A text that is blocked also blocks the names that it begins.
longer_refused : is_safe (validate_path plain "/mnt/m/older" "read" none validator) ≡ false
unfolding validate_path
longer_refused = refl

-- Nothing exists, so that a path stays as it was given.
abbrev empty : FileSystem
empty = record plain { tokio_canonicalize = λ p. none; canonicalize = λ p. none }

-- A new file is created in `/etc` by way of another directory.
detour_accepted : is_safe (validate_path empty "/tmp/../etc/new" "create" none validator) ≡ true
unfolding validate_path
detour_accepted = refl

validate_path-safe_iff_example :
    (is_safe (validate_path plain "/mnt/m//data/./a" "write" (some "m") validator) ≡ true)
    ↔ IsAcceptable plain "/mnt/m//data/./a" "write" (some "m") validator
validate_path-safe_iff_example =
    validate_path-safe_iff plain "/mnt/m//data/./a" "write" (some "m") validator

abbrev registered : PathSecurityValidator × Result String (Unit {0})
registered = register_mount plain 7 "e" "/etc/m" "host:/share" [] validator

register_mount_cases_example :
    ((e : String) × (registered ≡ (validator, err e))
      × ((plain.exists "/etc/m" ≡ false)
          ⊎ (plain.is_dir "/etc/m" ≡ false)
          ⊎ ((e' : String) × (plain.modified "/etc/m" ≡ err e'))))
    ⊎ ((c : MountSecurityConfig) × (nanos : ℕ) × (plain.exists "/etc/m" ≡ true)
        × (plain.is_dir "/etc/m" ≡ true)
        × (plain.modified "/etc/m" ≡ ok nanos)
        × (registered.1 ≡ ok tt)
        × (c.mount_point ≡ "/etc/m")
        × (c.allowed_paths ≡ [])
        × (get "e" registered.0.mounts ≡ some c))
register_mount_cases_example = register_mount_cases plain 7 "e" "/etc/m" "host:/share" [] validator
