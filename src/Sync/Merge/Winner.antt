-- ===== src/Sync/Merge/Winner.antt =====
-- Which version `resolve_mount_conflict` of src/sync/merge.rs chooses.
use fuji.Base.{
  ℕ, ◌≤◌, ◌≡◌, refl, sym, ap, ◌∙◌, subst, ◌⊎◌, inl, inr, String, true, false, none, some, List, [],
  ◌∷◌, Memᴰ, arith, leb→le, ==_iff, str_eq, str_leb_total, str_leb_trans, find, filter, sort_by,
  sort_by-head, mem_of_sort_by, mem-sort_by, decide-true, mem_of_filter, mem-filter, member_of_find,
  Bool-cases, Option-cases,
}
use fuji.Mount.Config.{same_config, MountConfig-discrete}
use fuji.Sync.Merge.{
  ConflictResolutionStrategy, latest_wins, prefer_instance, manual, instance_id_tie_break,
  MountVersion, ResolvedMount, newer, earlier_id, same_time, tie_break, resolve_tie, is_empty,
  differs, has_real_conflicts, resolve_sorted, resolve_mount_conflict,
}

newer_total : (a b : MountVersion) → (newer a b ≡ true) ⊎ (newer b a ≡ true)
newer_total a b = ground arith

newer_trans : (a b c : MountVersion) → newer a b ≡ true → newer b c ≡ true → newer a c ≡ true
newer_trans a b c h k = ground arith

pub earlier_id_total : (a b : MountVersion) → (earlier_id a b ≡ true) ⊎ (earlier_id b a ≡ true)
earlier_id_total a b = str_leb_total a.instance_id b.instance_id

pub earlier_id_trans :
    (a b c : MountVersion) → earlier_id a b ≡ true → earlier_id b c ≡ true → earlier_id a c ≡ true
earlier_id_trans a b c = str_leb_trans a.instance_id b.instance_id c.instance_id

pub config_of_not_differs :
    (latest v : MountVersion) → differs latest v ≡ false → v.config.config ≡ latest.config.config
unfolding same_config
config_of_not_differs latest v h =
    decide-true (MountConfig-discrete v.config.config latest.config.config) (ground (arith, h))

-- A non-empty list of versions, sorted with the newest first: its head, and that it is the newest.
pub record Newest (vs : List MountVersion) (latest : MountVersion) : Type 0 where
  pub member : Memᴰ latest vs
  pub bound : (w : MountVersion) → Memᴰ w vs → w.updated_at ≤ latest.updated_at

pub sort_by-Newest :
    (vs : List MountVersion) {latest : MountVersion} {rest : List MountVersion}
    → sort_by newer vs ≡ latest ∷ rest
    → Newest vs latest
sort_by-Newest vs {latest} {rest} e =
    let (m, least) = sort_by-head newer newer_total newer_trans vs e in
    record { member = m; bound = λ w mw. leb→le w.updated_at latest.updated_at (least w mw) }

-- The versions with the time of the newest.
abbrev pub ties : MountVersion → List MountVersion → List MountVersion
ties latest vs = filter (same_time latest) vs

-- Every arm of the strategies picks one of the tied versions or the newest.
pub resolve_tie-member :
    (strategy : ConflictResolutionStrategy) (mount_id : String) (latest : MountVersion)
    (same : List MountVersion)
    → Memᴰ latest same
    → (v : MountVersion) × Memᴰ v same
      × ((resolve_tie strategy mount_id latest same).config ≡ v.config)
unfolding resolve_tie
resolve_tie-member latest_wins mount_id latest same m = (latest, m, refl)
resolve_tie-member (prefer_instance id) mount_id latest same m =
    elim (Option-cases (find (λ (v : MountVersion). str_eq v.instance_id id) same)) [
      | inl e ↦ (latest, m, rw (resolve_tie, e))
      | inr (v, e) ↦ (v, (member_of_find _ v same e).0, rw (resolve_tie, e))
    ]
resolve_tie-member manual mount_id latest same m = (latest, m, refl)
resolve_tie-member instance_id_tie_break mount_id latest same m =
    first (sort_by earlier_id same) refl
  where
    first :
        (l : List MountVersion)
        → sort_by earlier_id same ≡ l
        → (v : MountVersion) × Memᴰ v same × ((tie_break mount_id latest l).config ≡ v.config)
    first [] e = (latest, m, refl)
    first (v ∷ vs) e =
        (v, mem_of_sort_by earlier_id v same (subst (λ l. Memᴰ v l) (sym e) (Memᴰ.head refl)), refl)

-- What the choice is for the versions sorted with the newest first.
pub record Choice (strategy : ConflictResolutionStrategy) (mount_id : String)
    (vs : List MountVersion) (r : ResolvedMount) : Type 0 where
  pub latest : MountVersion
  pub rest : List MountVersion
  pub sorted : sort_by newer vs ≡ latest ∷ rest
  pub chosen :
      ((has_real_conflicts latest (ties latest (latest ∷ rest)) ≡ true)
        × (r ≡ resolve_tie strategy mount_id latest (ties latest (latest ∷ rest))))
      ⊎ ((has_real_conflicts latest (ties latest (latest ∷ rest)) ≡ false)
          × (r ≡ record { config = latest.config; conflict = none }))

pub ties_head :
    (latest : MountVersion) (rest : List MountVersion) → Memᴰ latest (ties latest (latest ∷ rest))
ties_head latest rest =
    mem-filter (same_time latest) latest (latest ∷ rest) (Memᴰ.head refl)
      ((==_iff latest.updated_at latest.updated_at).1 refl)

is_empty_of_mem : (v : MountVersion) (vs : List MountVersion) → Memᴰ v vs → is_empty vs ≡ false
is_empty_of_mem v [] m = elim m [ ]
is_empty_of_mem v (w ∷ vs) m = refl

sorted-Choice :
    (strategy : ConflictResolutionStrategy) (mount_id : String) (vs l : List MountVersion)
    {r : ResolvedMount}
    → sort_by newer vs ≡ l
    → resolve_sorted strategy mount_id l ≡ some r
    → Choice strategy mount_id vs r
unfolding resolve_sorted
sorted-Choice strategy mount_id vs [] e h = cc
sorted-Choice strategy mount_id vs (latest ∷ rest) e h =
    let same = ties latest (latest ∷ rest) in
    let full : is_empty same ≡ false = is_empty_of_mem latest same (ties_head latest rest) in
    record {
      latest = latest;
      rest = rest;
      sorted = e;
      chosen = elim (Bool-cases (has_real_conflicts latest same)) [
        | inl c ↦ inl (c, ground (arith, h, c, full))
        | inr c ↦ inr (c, ground (arith, h, c, full))
      ];
    }

pub resolve-Choice :
    (strategy : ConflictResolutionStrategy) (mount_id : String) (vs : List MountVersion)
    {r : ResolvedMount}
    → resolve_mount_conflict strategy mount_id vs ≡ some r
    → Choice strategy mount_id vs r
unfolding resolve_mount_conflict
resolve-Choice strategy mount_id vs h = sorted-Choice strategy mount_id vs (sort_by newer vs) refl h

-- A tied version is a version, with the time of the newest.
pub mem_of_ties :
    (vs : List MountVersion) {latest : MountVersion} {rest : List MountVersion} (w : MountVersion)
    → sort_by newer vs ≡ latest ∷ rest
    → Memᴰ w (ties latest (latest ∷ rest))
    → Memᴰ w vs × (w.updated_at ≡ latest.updated_at)
mem_of_ties vs {latest} {rest} w e m =
    let (t, q) = mem_of_filter (same_time latest) w (latest ∷ rest) m in
    (
      mem_of_sort_by newer w vs (subst (λ l. Memᴰ w l) (sym e) t),
      (==_iff w.updated_at latest.updated_at).0 q,
    )

pub mem-ties :
    (vs : List MountVersion) {latest : MountVersion} {rest : List MountVersion} (w : MountVersion)
    → sort_by newer vs ≡ latest ∷ rest
    → Memᴰ w vs
    → w.updated_at ≡ latest.updated_at
    → Memᴰ w (ties latest (latest ∷ rest))
mem-ties vs {latest} {rest} w e m q =
    mem-filter (same_time latest) w (latest ∷ rest)
      (subst (λ l. Memᴰ w l) e (mem-sort_by newer w vs m))
      ((==_iff w.updated_at latest.updated_at).1 q)

-- No version is later than a time.
abbrev pub AtMost : ℕ → List MountVersion → Type 0
AtMost t [] = Unit
AtMost t (w ∷ vs) = (w.updated_at ≤ t) × AtMost t vs

pub bounded-AtMost :
    (t : ℕ) (vs : List MountVersion)
    → ((w : MountVersion) → Memᴰ w vs → w.updated_at ≤ t)
    → AtMost t vs
bounded-AtMost t [] h = tt
bounded-AtMost t (w ∷ vs) h = (h w (Memᴰ.head refl), bounded-AtMost t vs (λ u m. h u (Memᴰ.tail m)))

pub AtMost-bound :
    (t : ℕ) (vs : List MountVersion) (w : MountVersion) → AtMost t vs → Memᴰ w vs → w.updated_at ≤ t
AtMost-bound t [] w h m = elim m [ ]
AtMost-bound t (u ∷ vs) w h (Memᴰ.head e) =
    subst (λ (x : MountVersion). x.updated_at ≤ t) (sym e) h.0
AtMost-bound t (u ∷ vs) w h (Memᴰ.tail m) = AtMost-bound t vs w h.1 m

-- Whatever the strategy, the choice for a mount that is returned is one of its versions, and
-- none is newer: no later edit is lost to an earlier one.
pub resolve-newest :
    (strategy : ConflictResolutionStrategy) (mount_id : String) (vs : List MountVersion)
    (r : ResolvedMount)
    → resolve_mount_conflict strategy mount_id vs ≡ some r
    → (v : MountVersion) × Memᴰ v vs × (r.config ≡ v.config) × AtMost v.updated_at vs
resolve-newest strategy mount_id vs r h =
    let c = resolve-Choice strategy mount_id vs h in
    let n = sort_by-Newest vs c.sorted in
    elim c.chosen [
      | inl (_, e) ↦
          let (v, m, q) =
            resolve_tie-member strategy mount_id c.latest (ties c.latest (c.latest ∷ c.rest))
              (ties_head c.latest c.rest) in
          let (mv, tv) = mem_of_ties vs v c.sorted m in
          (
            v,
            mv,
            ap (λ (x : ResolvedMount). x.config) e ∙ q,
            subst (λ t. AtMost t vs) (sym tv) (bounded-AtMost c.latest.updated_at vs n.bound),
          )
      | inr (_, e) ↦ (
        c.latest,
        n.member,
        ap (λ (x : ResolvedMount). x.config) e,
        bounded-AtMost c.latest.updated_at vs n.bound,
      )
    ]
