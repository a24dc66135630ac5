-- ===== src/Security/PathSecurity/Accepted.antt =====
-- Which paths `validate_path` of src/security/path_security.rs accepts.
use fuji.Base.{
  String, true, false, Option, none, some, List, [], ◌∷◌, ◌≡◌, refl, ◌↔◌, inl, inr, find,
  Bool-cases, Option-cases, any-false, any-true, find-none, ◌⊎◌, Memᴰ,
}
use fuji.Security.Paths.{
  starts_with, path_starts_with, IsBelow, Extends, starts_with-Extends, path_starts_with-IsBelow,
}
use fuji.Security.PathSecurity.{FileSystem, PathSecurityValidator, MountSecurityConfig, is_safe}
use fuji.Security.PathSecurity.Validate.{
  absolute, is_path_blocked, matches_dangerous, sensitive_patterns, validate_write_permissions,
  is_write, check_operation, is_allowed, check_mount, mount_of, check_registered, validate_path,
}
use fuji.Security.PathSecurity.Allowed.{
  IsUnblocked, IsHarmless, IsInside, IsWritable, IsAcceptable, safe-IsAcceptable,
}

starts_otherwise : (s prefix : String) → ¬ Extends s prefix → starts_with s prefix ≡ false
starts_otherwise s prefix n = elim (Bool-cases (starts_with s prefix)) [
  | inl e ↦ absurd (n ((starts_with-Extends s prefix).0 e))
  | inr e ↦ e
]

lies_elsewhere : (path base : String) → ¬ IsBelow path base → path_starts_with path base ≡ false
lies_elsewhere path base n = elim (Bool-cases (path_starts_with path base)) [
  | inl e ↦ absurd (n ((path_starts_with-IsBelow path base).0 e))
  | inr e ↦ e
]

passes_block :
    (path : String) (v : PathSecurityValidator)
    → IsUnblocked v path
    → is_path_blocked path v ≡ false
unfolding is_path_blocked IsUnblocked
passes_block path v h =
    any-false (λ b. starts_with path b) v.blocked_paths (λ b m. starts_otherwise path b (h b m))

passes_files :
    (fs : FileSystem) (path : String) (v : PathSecurityValidator)
    → IsHarmless fs v path
    → find (matches_dangerous fs path) v.dangerous_system_files ≡ none
unfolding matches_dangerous IsHarmless
passes_files fs path v h = find-none (matches_dangerous fs path) v.dangerous_system_files (λ d m.
    let (plain, resolved) = h d m in
    elim (Option-cases (fs.canonicalize d)) [
      | inl e ↦ rw (matches_dangerous, lies_elsewhere path d plain, e) refl
      | inr (c, e) ↦
          rw (matches_dangerous, lies_elsewhere path d plain, e)
            (lies_elsewhere path c (resolved c e))
    ])

passes_allowed :
    (path : String) (paths : List String)
    → (paths ≡ []) ⊎ ((a : String) × Memᴰ a paths × IsBelow path a)
    → is_allowed path paths ≡ true
unfolding is_allowed
passes_allowed path [] h = refl
passes_allowed path (p ∷ ps) (inl e) = cc
passes_allowed path (p ∷ ps) (inr (a, m, b)) =
    any-true (λ c. path_starts_with path c) a (p ∷ ps) m ((path_starts_with-IsBelow path a).1 b)

passes_mount :
    (fs : FileSystem) (path : String) (config : MountSecurityConfig)
    → IsInside fs config path
    → check_mount fs path config ≡ none
unfolding check_mount IsInside
passes_mount fs path config (below, allowed, links) =
    rw
      (
        check_mount,
        (path_starts_with-IsBelow path config.mount_point).1 below,
        passes_allowed path config.allowed_paths allowed,
        links,
      )
      refl

passes_write :
    (path operation : String)
    → (is_write operation ≡ false) ⊎ IsWritable path
    → is_safe (check_operation path operation) ≡ true
unfolding check_operation validate_write_permissions IsWritable
passes_write path operation (inl e) = rw (check_operation, e) refl
passes_write path operation (inr h) =
    let f =
      find-none (λ p. starts_with path p) sensitive_patterns
        (λ p m. starts_otherwise path p (h p m)) in
    elim (Bool-cases (is_write operation)) [
      | inl e ↦ rw (check_operation, e, f) refl
      | inr e ↦ rw (check_operation, e) refl
    ]

passes_registered :
    (fs : FileSystem) (path : String) (o : Option MountSecurityConfig)
    → (o ≡ none) ⊎ ((config : MountSecurityConfig) × (o ≡ some config) × IsInside fs config path)
    → check_registered fs path o ≡ none
passes_registered fs path o (inl e) = rw (e) refl
passes_registered fs path o (inr (config, e, h)) = rw (e) (passes_mount fs path config h)

-- A path is accepted exactly if what it resolves to begins with no blocked text; is not, and does
-- not lie below, a dangerous file or what that file resolves to; lies in the mount that is given,
-- if it is registered, and below an allowed path of it where there are any, with links that are not
-- too deep; and begins with no sensitive directory, if the operation writes.
pub validate_path-safe_iff :
    (fs : FileSystem) (path operation : String) (mount_id : Option String)
    (v : PathSecurityValidator)
    → (is_safe (validate_path fs path operation mount_id v) ≡ true)
      ↔ IsAcceptable fs (absolute fs path) operation mount_id v
unfolding validate_path IsAcceptable
validate_path-safe_iff fs path operation mount_id v = (
  safe-IsAcceptable fs path operation mount_id v,
  λ (unblocked, harmless, inside, writable).
      let p = absolute fs path in
      rw
        (
          validate_path,
          passes_block p v unblocked,
          passes_files fs p v harmless,
          passes_registered fs p (mount_of mount_id v) inside,
        )
        (passes_write p operation writable),
)
