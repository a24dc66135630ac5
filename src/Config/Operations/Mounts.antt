-- ===== src/Config/Operations/Mounts.antt =====
-- The mounts of a configuration as a map: the operations of src/config/mod.rs on them.
use fuji.Base.{
  ℕ, ◌≡◌, refl, subst, String, Option, none, some, eq_iff, str_eq, inl, inr, Bool-cases,
  Option-cases, if◌then◌else◌, get, get-insert, get-remove,
}
use fuji.Mount.Config.{MountConfig}
use fuji.Config.{Config}
use fuji.Config.Operations.{
  wrap_mount, get_instance_id, add_mount, get_mount, remove_mount, update_wrapper, update_mount,
}

-- After a mount is added, its identifier finds it, and every other identifier finds what it found.
get_mount-add_mount :
    (mount : MountConfig) (c : Config) (j : String)
    → get_mount j (add_mount mount c) ≡ (if str_eq mount.id j then some mount else get_mount j c)
unfolding add_mount get_mount
get_mount-add_mount mount c j = elim (Bool-cases (str_eq mount.id j)) [
  | inl e ↦
      rw (get_mount, get-insert mount.id j (wrap_mount mount (get_instance_id c)) c.mounts, e) refl
  | inr e ↦
      rw (get_mount, get-insert mount.id j (wrap_mount mount (get_instance_id c)) c.mounts, e) refl
]

-- Removing a mount returns the mount that was found, and afterwards its identifier finds nothing and
-- every other identifier what it found.
get_mount-remove_mount :
    (id : String) (c : Config) (j : String)
    → ((remove_mount id c).1 ≡ get_mount id c)
      × (get_mount j (remove_mount id c).0 ≡ (if str_eq id j then none else get_mount j c))
unfolding remove_mount get_mount
get_mount-remove_mount id c j = elim (Bool-cases (str_eq id j)) [
  | inl e ↦ (refl, rw (get_mount, get-remove id j c.mounts, e) refl)
  | inr e ↦ (refl, rw (get_mount, get-remove id j c.mounts, e) refl)
]

-- The mount that an update leaves under its identifier: nothing where there was nothing.
abbrev pub updated : ℕ → MountConfig → Option MountConfig → Option MountConfig
updated now mount none = none
updated now mount (some old) = some (record mount { updated_at = now })

-- An update replaces a mount that is there, with the time of the update, adds none that is not, and
-- changes no other mount.
get_mount-update_mount :
    (now : ℕ) (id : String) (mount : MountConfig) (c : Config) (j : String)
    → get_mount j (update_mount now id mount c)
      ≡ (if str_eq id j then updated now mount (get_mount j c) else get_mount j c)
unfolding update_mount update_wrapper get_mount
get_mount-update_mount now id mount c j = elim (Option-cases (get id c.mounts)) [
  | inl e ↦ elim (Bool-cases (str_eq id j)) [
    | inl f ↦
        let g : get j c.mounts ≡ none = subst (λ l. get l c.mounts ≡ none) ((eq_iff id j).0 f) e in
        rw (update_mount, get_mount, e, f, g) refl
    | inr f ↦ rw (update_mount, get_mount, e, f) refl
  ]
  | inr (w, e) ↦ elim (Bool-cases (str_eq id j)) [
    | inl f ↦
        let g : get j c.mounts ≡ some w =
          subst (λ l. get l c.mounts ≡ some w) ((eq_iff id j).0 f) e in
        rw (update_mount, e) (rw (get_mount, get-insert id j _ c.mounts, f, g) refl)
    | inr f ↦ rw (update_mount, e) (rw (get_mount, get-insert id j _ c.mounts, f) refl)
  ]
]

-- After a mount is added its identifier finds it; removing a mount returns the mount that was
-- found, and afterwards its identifier finds nothing; an update replaces a mount that is there,
-- with the time of the update, and adds none that is not. Every other identifier finds what it
-- found before.
pub mounts_change :
    (now : ℕ) (id : String) (mount : MountConfig) (c : Config) (j : String)
    → (get_mount j (add_mount mount c) ≡ (if str_eq mount.id j then some mount else get_mount j c))
      × ((remove_mount id c).1 ≡ get_mount id c)
      × (get_mount j (remove_mount id c).0 ≡ (if str_eq id j then none else get_mount j c))
      × (get_mount j (update_mount now id mount c)
          ≡ (if str_eq id j then updated now mount (get_mount j c) else get_mount j c))
mounts_change now id mount c j =
    let (returned, removed) = get_mount-remove_mount id c j in
    (get_mount-add_mount mount c j, returned, removed, get_mount-update_mount now id mount c j)
