-- ===== src/Security/PathSecurity/Registered.antt =====
-- What a registration in src/security/path_security.rs looks at.
use fuji.Base.{
  ℕ, String, true, false, some, List, ◌≡◌, refl, ◌⊎◌, inl, inr, find, Bool-cases, Option-cases,
  Result-cases, get, get-insert, eq_refl, ok, err,
}
use fuji.Security.Paths.{path_starts_with}
use fuji.Security.PathSecurity.{
  FileSystem, ValidationResult, PathSecurityValidator, MountSecurityConfig, log_security_event,
}
use fuji.Security.PathSecurity.Integrity.{
  dangerous_locations, validate_mount_point, integrity_hash, calculate_mount_integrity_hash,
  new_config, register_mount,
}

-- A directory that is there is given a verdict, whichever it is.
verdict_given :
    (fs : FileSystem) (mount_point : String)
    → fs.exists mount_point ≡ true
    → fs.is_dir mount_point ≡ true
    → (r : ValidationResult) × (validate_mount_point fs mount_point ≡ ok r)
unfolding validate_mount_point
verdict_given fs mount_point e d = elim (Result-cases (validate_mount_point fs mount_point)) [
  | inl (r, q) ↦ (r, q)
  | inr (m, q) ↦ elim (Option-cases (find (path_starts_with mount_point) dangerous_locations)) [
    | inl f ↦ let c = rw (validate_mount_point, e, d, f) at q in cc
    | inr (l, f) ↦ let c = rw (validate_mount_point, e, d, f) at q in cc
  ]
]

-- A registration either is refused and changes nothing, because the mount point does not exist, is
-- not a directory, or its time of modification cannot be read; or none of these is the case, it
-- ends well, and the mount is watched under its identifier. Whether the mount point lies in a
-- dangerous location makes no difference.
pub register_mount_cases :
    (fs : FileSystem) (now : ℕ) (mount_id mount_point source_path : String)
    (allowed_paths : List String) (v : PathSecurityValidator)
    → ((e : String) × (register_mount fs now mount_id mount_point source_path allowed_paths v
          ≡ (v, err e))
        × ((fs.exists mount_point ≡ false)
            ⊎ (fs.is_dir mount_point ≡ false)
            ⊎ ((e' : String) × (fs.modified mount_point ≡ err e'))))
      ⊎ ((config : MountSecurityConfig) × (nanos : ℕ) × (fs.exists mount_point ≡ true)
          × (fs.is_dir mount_point ≡ true)
          × (fs.modified mount_point ≡ ok nanos)
          × ((register_mount fs now mount_id mount_point source_path allowed_paths v).1 ≡ ok tt)
          × (config.mount_point ≡ mount_point)
          × (config.allowed_paths ≡ allowed_paths)
          × (get mount_id
                (register_mount fs now mount_id mount_point source_path allowed_paths v).0.mounts
              ≡ some config))
unfolding register_mount calculate_mount_integrity_hash log_security_event
register_mount_cases fs now mount_id mount_point source_path allowed_paths v =
    elim (Bool-cases (fs.exists mount_point)) [
      | inr e ↦ inl ("Mount point validation failed", rw (register_mount, e) refl, inl e)
      | inl e ↦ elim (Bool-cases (fs.is_dir mount_point)) [
        | inr d ↦ inl ("Mount point validation failed", rw (register_mount, e, d) refl, inr (inl d))
        | inl d ↦
            let (r, q) = verdict_given fs mount_point e d in
            elim (Result-cases (fs.modified mount_point)) [
              | inr (e', m) ↦ inl (e', rw (register_mount, q, m) refl, inr (inr (e', m)))
              | inl (nanos, m) ↦
                  let config =
                    new_config now mount_id mount_point source_path allowed_paths
                      (integrity_hash mount_point nanos) v in
                  let found =
                    rw (eq_refl mount_id) at (get-insert mount_id mount_id config v.mounts) in
                  inr (
                    config,
                    nanos,
                    e,
                    d,
                    m,
                    rw (register_mount, q, m) refl,
                    refl,
                    refl,
                    rw (register_mount, q, m) found,
                  )
            ]
      ]
    ]
