-- ===== src/Sync/Merge/TieBreak.antt =====
-- The tie-break by instance of src/sync/merge.rs: every instance chooses the same configuration,
-- in whatever order it was given the versions.
use fuji.Base.{
  ◌≤◌, ◌≡◌, refl, sym, ap, ◌∙◌, subst, ◌⊎◌, inl, inr, String, true, some, List, [], ◌∷◌, Memᴰ,
  arith, str_leb_antisym, sort_by, sort_by-head, mem-sort_by, false_of_any,
}
use fuji.Mount.Config.{MountConfig}
use fuji.Config.{MountConfigWrapper}
use fuji.Sync.Merge.{
  instance_id_tie_break, MountVersion, ResolvedMount, earlier_id, tie_break, resolve_tie, differs,
  resolve_mount_conflict,
}
use fuji.Sync.Merge.Winner.{
  config_of_not_differs, sort_by-Newest, ties, ties_head, mem_of_ties, mem-ties, resolve-Choice,
  earlier_id_total, earlier_id_trans,
}

-- A configuration wins if some newest version has it whose instance comes before those of all
-- newest versions that have another configuration.
pub record Wins (vs : List MountVersion) (c : MountConfig) : Type 0 where
  pub winner : MountVersion
  pub member : Memᴰ winner vs
  pub config : winner.config.config ≡ c
  pub newest : (w : MountVersion) → Memᴰ w vs → w.updated_at ≤ winner.updated_at
  pub first :
      (w : MountVersion)
      → Memᴰ w vs
      → w.updated_at ≡ winner.updated_at
      → (earlier_id winner w ≡ true) ⊎ (w.config.config ≡ c)

tie_break-first :
    (mount_id : String) (latest : MountVersion) (same : List MountVersion)
    → Memᴰ latest same
    → (v : MountVersion) × Memᴰ v same
      × ((resolve_tie instance_id_tie_break mount_id latest same).config ≡ v.config)
      × ((w : MountVersion) → Memᴰ w same → earlier_id v w ≡ true)
unfolding resolve_tie
tie_break-first mount_id latest same m =
    from (sort_by earlier_id same) refl (mem-sort_by earlier_id latest same m)
  where
    from :
        (l : List MountVersion)
        → sort_by earlier_id same ≡ l
        → Memᴰ latest l
        → (v : MountVersion) × Memᴰ v same
          × ((tie_break mount_id latest l).config ≡ v.config)
          × ((w : MountVersion) → Memᴰ w same → earlier_id v w ≡ true)
    from [] e n = elim n [ ]
    from (v ∷ vs) e n =
        let (mv, least) = sort_by-head earlier_id earlier_id_total earlier_id_trans same e in
        (v, mv, refl, least)

-- The tie-break chooses the configuration that wins.
pub resolve-Wins :
    (mount_id : String) (vs : List MountVersion) (r : ResolvedMount)
    → resolve_mount_conflict instance_id_tie_break mount_id vs ≡ some r
    → Wins vs r.config.config
resolve-Wins mount_id vs r h =
    let c = resolve-Choice instance_id_tie_break mount_id vs h in
    let n = sort_by-Newest vs c.sorted in
    elim c.chosen [
      | inl (_, e) ↦
          let (v, m, q, least) =
            tie_break-first mount_id c.latest (ties c.latest (c.latest ∷ c.rest))
              (ties_head c.latest c.rest) in
          let (mv, tv) = mem_of_ties vs v c.sorted m in
          record {
            winner = v;
            member = mv;
            config = sym (
                ap (λ (x : ResolvedMount). x.config.config) e
                ∙ ap (λ (w : MountConfigWrapper). w.config) q);
            newest = λ w mw. subst (λ t. w.updated_at ≤ t) (sym tv) (n.bound w mw);
            first = λ w mw t. inl (least w (mem-ties vs w c.sorted mw (t ∙ tv)));
          }
      | inr (same, e) ↦
          let q = sym (ap (λ (x : ResolvedMount). x.config.config) e) in
          record {
            winner = c.latest;
            member = n.member;
            config = q;
            newest = n.bound;
            first = λ w mw t. inr (
                config_of_not_differs c.latest w
                  (false_of_any (differs c.latest) w _ same (mem-ties vs w c.sorted mw t))
                ∙ q);
          }
    ]

-- An instance has one version of a mount in the list.
abbrev pub OneEach : List MountVersion → Type 0
OneEach vs = (v w : MountVersion) → Memᴰ v vs → Memᴰ w vs → v.instance_id ≡ w.instance_id → v ≡ w

Wins-unique :
    {vs : List MountVersion} {c d : MountConfig} → OneEach vs → Wins vs c → Wins vs d → c ≡ d
Wins-unique one x y =
    let back : y.winner.updated_at ≡ x.winner.updated_at =
      omega (arith, x.newest y.winner y.member, y.newest x.winner x.member) in
    elim (x.first y.winner y.member back) [
      | inr e ↦ sym e ∙ y.config
      | inl before ↦ elim (y.first x.winner x.member (sym back)) [
        | inr e ↦ sym x.config ∙ e
        | inl after ↦
            sym x.config
            ∙ ap (λ (v : MountVersion). v.config.config)
                (one x.winner y.winner x.member y.member
                  (str_leb_antisym x.winner.instance_id y.winner.instance_id before after))
            ∙ y.config
      ]
    ]

Wins-mono :
    {vs ws : List MountVersion} {c : MountConfig}
    → ((v : MountVersion) → Memᴰ v vs → Memᴰ v ws)
    → ((v : MountVersion) → Memᴰ v ws → Memᴰ v vs)
    → Wins ws c
    → Wins vs c
Wins-mono there back x = record {
  winner = x.winner;
  member = back x.winner x.member;
  config = x.config;
  newest = λ w m. x.newest w (there w m);
  first = λ w m. x.first w (there w m);
}

-- With one version from each instance, two lists of the same versions of a mount, in any orders,
-- lead the tie-break, where it returns, to the same configuration.
pub resolve-order_independent :
    (mount_id : String) (vs ws : List MountVersion) (r s : ResolvedMount)
    → OneEach vs
    → ((v : MountVersion) → Memᴰ v vs → Memᴰ v ws)
    → ((v : MountVersion) → Memᴰ v ws → Memᴰ v vs)
    → resolve_mount_conflict instance_id_tie_break mount_id vs ≡ some r
    → resolve_mount_conflict instance_id_tie_break mount_id ws ≡ some s
    → r.config.config ≡ s.config.config
resolve-order_independent mount_id vs ws r s one there back h k =
    Wins-unique one (resolve-Wins mount_id vs r h)
      (Wins-mono there back (resolve-Wins mount_id ws s k))
