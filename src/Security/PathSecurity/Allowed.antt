-- ===== src/Security/PathSecurity/Allowed.antt =====
-- What `validate_path` of src/security/path_security.rs accepts.
use fuji.Base.{
  String, Bool, true, false, Option, none, some, List, [], ◌∷◌, ◌≡◌, refl, sym, ◌∙◌, ◌⊎◌, inl, inr,
  arith, find, Bool-cases, Option-cases, Result-cases, Memᴰ, false_of_any, false_of_find,
  member_of_any, ok,
}
use mathlib.Core.Bool.{false≢true}
use fuji.Security.Paths.{
  starts_with, path_starts_with, IsBelow, Extends, starts_with-Extends, path_starts_with-IsBelow,
}
use fuji.Security.PathSecurity.{
  FileSystem, PathSecurityValidator, MountSecurityConfig, max_symlink_depth, is_safe,
  ValidationResult,
}
use fuji.Security.PathSecurity.Validate.{
  absolute, is_path_blocked, matches_dangerous, validate_symlink_depth, sensitive_patterns,
  validate_write_permissions, is_write, check_operation, is_allowed, check_mount, mount_of,
  check_registered, validate_path,
}

unfoldable pub IsUnblocked : PathSecurityValidator → String → Type 0
IsUnblocked v path = (b : String) → Memᴰ b v.blocked_paths → ¬ Extends path b

-- No part of the operating system that the list names, nor what a name of it resolves to.
unfoldable pub IsHarmless : FileSystem → PathSecurityValidator → String → Type 0
IsHarmless fs v path =
    (d : String)
    → Memᴰ d v.dangerous_system_files
    → (¬ IsBelow path d) × ((c : String) → fs.canonicalize d ≡ some c → ¬ IsBelow path c)

-- Inside the mount, and inside what the mount allows, with links that are not too deep.
unfoldable pub IsInside : FileSystem → MountSecurityConfig → String → Type 0
IsInside fs config path =
    IsBelow path config.mount_point
    × ((config.allowed_paths ≡ []) ⊎ ((a : String) × Memᴰ a config.allowed_paths × IsBelow path a))
    × (validate_symlink_depth fs path (max_symlink_depth config.security_profile) ≡ ok tt)

unfoldable pub IsWritable : String → Type 0
IsWritable path = (p : String) → Memᴰ p sensitive_patterns → ¬ Extends path p

outside : (path base : String) → path_starts_with path base ≡ false → ¬ IsBelow path base
outside path base h below = false≢true (sym h ∙ (path_starts_with-IsBelow path base).1 below)

begins_otherwise : (s prefix : String) → starts_with s prefix ≡ false → ¬ Extends s prefix
begins_otherwise s prefix h e = false≢true (sym h ∙ (starts_with-Extends s prefix).1 e)

unblocked :
    (path : String) (v : PathSecurityValidator)
    → is_path_blocked path v ≡ false
    → IsUnblocked v path
unfolding is_path_blocked IsUnblocked
unblocked path v h b m =
    begins_otherwise path b (false_of_any (λ b'. starts_with path b') b v.blocked_paths h m)

harmless :
    (fs : FileSystem) (path : String) (v : PathSecurityValidator)
    → find (matches_dangerous fs path) v.dangerous_system_files ≡ none
    → IsHarmless fs v path
unfolding IsHarmless matches_dangerous
harmless fs path v h d m =
    let q = false_of_find (matches_dangerous fs path) d v.dangerous_system_files h m in
    (outside path d (ground (arith, q)), λ c e. outside path c (ground (arith, q, e)))

allowed :
    (path : String) (paths : List String)
    → is_allowed path paths ≡ true
    → (paths ≡ []) ⊎ ((a : String) × Memᴰ a paths × IsBelow path a)
unfolding is_allowed
allowed path [] h = inl refl
allowed path (p ∷ ps) h =
    let (a, m, q) = member_of_any (λ b. path_starts_with path b) (p ∷ ps) h in
    inr (a, m, (path_starts_with-IsBelow path a).0 q)

inside :
    (fs : FileSystem) (path : String) (config : MountSecurityConfig)
    → check_mount fs path config ≡ none
    → IsInside fs config path
unfolding check_mount is_allowed IsInside
inside fs path config h =
    let checked = validate_symlink_depth fs path (max_symlink_depth config.security_profile) in
    elim (Bool-cases (path_starts_with path config.mount_point)) [
      | inr e ↦ let q = rw (check_mount, e) at h in cc
      | inl e ↦ elim (Bool-cases (is_allowed path config.allowed_paths)) [
        | inr f ↦ let q = rw (check_mount, e, f) at h in cc
        | inl f ↦ elim (Result-cases checked) [
          | inr (e', g) ↦ let q = rw (check_mount, e, f, g) at h in cc
          | inl (u, g) ↦ (
            (path_starts_with-IsBelow path config.mount_point).0 e,
            allowed path config.allowed_paths f,
            g,
          )
        ]
      ]
    ]

abbrev accepts : Option ValidationResult → Bool
accepts none = false
accepts (some r) = is_safe r

-- Whatever the checks of a mount answer is a refusal.
check_mount-refuses :
    (fs : FileSystem) (path : String) (config : MountSecurityConfig)
    → accepts (check_mount fs path config) ≡ false
unfolding check_mount
check_mount-refuses fs path config =
    let checked = validate_symlink_depth fs path (max_symlink_depth config.security_profile) in
    elim (Bool-cases (path_starts_with path config.mount_point)) [
      | inr e ↦ rw (check_mount, e) refl
      | inl e ↦ elim (Bool-cases (is_allowed path config.allowed_paths)) [
        | inr f ↦ rw (check_mount, e, f) refl
        | inl f ↦ elim (Result-cases checked) [
          | inr (e', g) ↦ rw (check_mount, e, f, g) refl
          | inl (u, g) ↦ rw (check_mount, e, f, g) refl
        ]
      ]
    ]

writable :
    (path operation : String)
    → is_safe (check_operation path operation) ≡ true
    → (is_write operation ≡ false) ⊎ IsWritable path
unfolding check_operation validate_write_permissions IsWritable
writable path operation h = elim (Bool-cases (is_write operation)) [
  | inr e ↦ inl e
  | inl e ↦ elim (Option-cases (find (λ p. starts_with path p) sensitive_patterns)) [
    | inl f ↦ inr (λ p m.
        begins_otherwise path p (false_of_find (λ q. starts_with path q) p sensitive_patterns f m))
    | inr (p, f) ↦ absurd (false≢true (rw (check_operation, e, f) at h))
  ]
]

registered :
    (fs : FileSystem) (path operation : String) (o : Option MountSecurityConfig)
    → is_safe (elim (check_registered fs path o) [
      | some refusal ↦ refusal
      | none ↦ check_operation path operation
    ])
      ≡ true
    → ((o ≡ none) ⊎ ((config : MountSecurityConfig) × (o ≡ some config) × IsInside fs config path))
      × (is_safe (check_operation path operation) ≡ true)
registered fs path operation none h = (inl refl, h)
registered fs path operation (some config) h = elim (Option-cases (check_mount fs path config)) [
  | inl e ↦ (inr (config, refl, inside fs path config e), rw (e) at h)
  | inr (r, e) ↦
      let unsafe = rw (e) at (check_mount-refuses fs path config) in
      absurd (false≢true (sym unsafe ∙ (rw (e) at h)))
]

-- The conditions on what a path resolves to, one for each step of the validation.
unfoldable pub IsAcceptable :
    FileSystem → String → String → Option String → PathSecurityValidator → Type 0
IsAcceptable fs path operation mount_id v =
    IsUnblocked v path
    × IsHarmless fs v path
    × ((mount_of mount_id v ≡ none)
        ⊎ ((config : MountSecurityConfig) × (mount_of mount_id v ≡ some config)
            × IsInside fs config path))
    × ((is_write operation ≡ false) ⊎ IsWritable path)

pub safe-IsAcceptable :
    (fs : FileSystem) (path operation : String) (mount_id : Option String)
    (v : PathSecurityValidator)
    → is_safe (validate_path fs path operation mount_id v) ≡ true
    → IsAcceptable fs (absolute fs path) operation mount_id v
unfolding validate_path IsAcceptable
safe-IsAcceptable fs path operation mount_id v h =
    let p = absolute fs path in
    elim (Bool-cases (is_path_blocked p v)) [
      | inl e ↦ absurd (false≢true (rw (validate_path, e) at h))
      | inr e ↦ elim (Option-cases (find (matches_dangerous fs p) v.dangerous_system_files)) [
        | inr (d, f) ↦ absurd (false≢true (rw (validate_path, e, f) at h))
        | inl f ↦
            let (g, k) =
              registered fs p operation (mount_of mount_id v) (rw (validate_path, e, f) at h) in
            (unblocked p v e, harmless fs p v f, g, writable p operation k)
      ]
    ]
