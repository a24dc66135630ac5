-- ===== src/Sync/Merge/Conflicts.antt =====
-- When `resolve_mount_conflict` of src/sync/merge.rs reports a conflict.
use fuji.Base.{
  ◌≡◌, ◌≢◌, ◌↔◌, not, member_of_any, sym, ap, ◌∙◌, subst, inl, inr, String, true, false, none, some,
  List, [], ◌∷◌, Memᴰ, arith, str_eq, find, sort_by, mem-sort_by, false_of_any, Option-cases,
}
use mathlib.Core.Bool.{decide, false≢true}
use fuji.Mount.Config.{same_config, MountConfig-discrete}
use fuji.Sync.Merge.{
  ConflictResolutionStrategy, latest_wins, prefer_instance, manual, instance_id_tie_break,
  MountVersion, ResolvedMount, newer, earlier_id, tie_break, resolve_tie, differs,
  has_real_conflicts, resolve_mount_conflict,
}
use fuji.Sync.Merge.Winner.{
  config_of_not_differs, AtMost, bounded-AtMost, AtMost-bound, sort_by-Newest, ties, ties_head,
  mem_of_ties, mem-ties, resolve-Choice,
}

-- A conflict is reported for every choice among differing versions.
resolve_tie-reports :
    (strategy : ConflictResolutionStrategy) (mount_id : String) (latest : MountVersion)
    (same : List MountVersion)
    → Memᴰ latest same
    → (resolve_tie strategy mount_id latest same).conflict ≢ none
unfolding resolve_tie
resolve_tie-reports latest_wins mount_id latest same m e = cc
resolve_tie-reports (prefer_instance id) mount_id latest same m e =
    elim (Option-cases (find (λ (v : MountVersion). str_eq v.instance_id id) same)) [
      | inl f ↦ ground (arith, e, f)
      | inr (v, f) ↦ ground (arith, e, f)
    ]
resolve_tie-reports manual mount_id latest same m e = cc
resolve_tie-reports instance_id_tie_break mount_id latest same m e =
    first (sort_by earlier_id same) (mem-sort_by earlier_id latest same m) e
  where
    first :
        (l : List MountVersion) → Memᴰ latest l → (tie_break mount_id latest l).conflict ≡ none → ⊥
    first [] n f = elim n [ ]
    first (v ∷ vs) n f = cc

differs_of_ne :
    (latest v : MountVersion) → differs latest v ≡ true → v.config.config ≢ latest.config.config
unfolding same_config decide
differs_of_ne latest v h e = decided (MountConfig-discrete v.config.config latest.config.config) h
  where
    decided : (d : Dec (v.config.config ≡ latest.config.config)) → not (decide d) ≡ true → ⊥
    decided (yes p) k = false≢true k
    decided (no n) k = n e

-- A version that no version of the list is newer than.
abbrev pub IsNewest : List MountVersion → MountVersion → Type 0
IsNewest vs v = Memᴰ v vs × AtMost v.updated_at vs

-- The newest versions are among the tied ones.
agrees_with_latest :
    {vs : List MountVersion} {latest : MountVersion} {rest : List MountVersion} (w : MountVersion)
    → sort_by newer vs ≡ latest ∷ rest
    → has_real_conflicts latest (ties latest (latest ∷ rest)) ≡ false
    → IsNewest vs w
    → w.config.config ≡ latest.config.config
agrees_with_latest {vs} {latest} {rest} w e same hw =
    let n = sort_by-Newest vs e in
    let t : w.updated_at ≡ latest.updated_at =
      omega (arith, n.bound w hw.0, AtMost-bound w.updated_at vs latest hw.1 n.member) in
    config_of_not_differs latest w (false_of_any (differs latest) w _ same (mem-ties vs w e hw.0 t))

-- Whatever the strategy, a conflict is reported exactly if two of the newest versions of the
-- mount have different configurations.
pub resolve-conflict_iff :
    (strategy : ConflictResolutionStrategy) (mount_id : String) (vs : List MountVersion)
    (r : ResolvedMount)
    → resolve_mount_conflict strategy mount_id vs ≡ some r
    → (r.conflict ≢ none) ↔ (
        (v : MountVersion) × (w : MountVersion) × IsNewest vs v
        × IsNewest vs w
        × (v.config.config ≢ w.config.config))
resolve-conflict_iff strategy mount_id vs r h =
    let c = resolve-Choice strategy mount_id vs h in
    let n = sort_by-Newest vs c.sorted in
    let newest : IsNewest vs c.latest = (n.member, bounded-AtMost c.latest.updated_at vs n.bound) in
    elim c.chosen [
      | inl (differ, e) ↦ (
        λ loud.
            let (w, m, d) = member_of_any (differs c.latest) _ differ in
            let (mw, tw) = mem_of_ties vs w c.sorted m in
            (
              w,
              c.latest,
              (mw, subst (λ t. AtMost t vs) (sym tw) newest.1),
              newest,
              differs_of_ne c.latest w d,
            ),
        λ two quiet.
            resolve_tie-reports strategy mount_id c.latest _ (ties_head c.latest c.rest)
              (sym (ap (λ (x : ResolvedMount). x.conflict) e) ∙ quiet),
      )
      | inr (same, e) ↦ (
        λ loud. absurd (loud (ap (λ (x : ResolvedMount). x.conflict) e)),
        λ (v, w, hv, hw, ne). absurd (
            ne (
              agrees_with_latest v c.sorted same hv ∙ sym (agrees_with_latest w c.sorted same hw))),
      )
    ]
