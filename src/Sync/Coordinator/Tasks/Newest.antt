-- ===== src/Sync/Coordinator/Tasks/Newest.antt =====
-- What the interleaved tasks of src/sync/coordinator.rs keep: the newest update, if nothing was
-- under way when it came.
use fuji.Base.{
  ℕ, ◌<◌, String, false, Option, List, [], ◌∷◌, ◌++◌, ◌≡◌, refl, sym, ◌∙◌, ap, ap₂, subst, arith,
  inl, inr, ◌⊎◌, Bool-cases, Option-cases, ltb, Dict,
}
use fuji.Mount.Config.{MountConfig}
use fuji.Config.{MountConfigWrapper}
use fuji.Sync.Merge.Configs.{sync_version_of}
use fuji.Sync.Protocol.{ConfigUpdate, config_update}
use fuji.Sync.Coordinator.{SyncCoordinator}
use fuji.Sync.Coordinator.Run.{message}
use fuji.Sync.Coordinator.Steps.{content}
use fuji.Sync.Coordinator.Updates.{offer, offer_all, updates, AllClustered}
use fuji.Sync.Coordinator.Tasks.{Tasks, begin, Turn, whole, check, write, nth, turn, turns}
use fuji.Sync.Coordinator.Tasks.Register.{
  All, All-append, All-nth, received, all_received, Register, act, act_all, register_of,
  turns-register,
}

abbrev pub entry : ConfigUpdate → ℕ × Dict MountConfigWrapper
entry u = (u.sync_version, u.config.mounts)

-- An update is older than another, or holds the same.
abbrev pub IsOlder : ConfigUpdate → ConfigUpdate → Type 0
IsOlder v u = (u.sync_version < v.sync_version) ⊎ (entry u ≡ entry v)

abbrev HoldsOlder : ConfigUpdate → ℕ × Dict MountConfigWrapper → Type 0
HoldsOlder v h = (h.0 < v.sync_version) ⊎ (h ≡ entry v)

offer-HoldsOlder :
    (v u : ConfigUpdate) (h : ℕ × Dict MountConfigWrapper)
    → IsOlder v u
    → HoldsOlder v h
    → HoldsOlder v (offer u h)
offer-HoldsOlder v u h old k = elim (Bool-cases (ltb (h.0) u.sync_version)) [
  | inl e ↦ rw (offer, e) old
  | inr e ↦ rw (offer, e) k
]

offer_all-HoldsOlder :
    (v : ConfigUpdate) (us : List ConfigUpdate) (h : ℕ × Dict MountConfigWrapper)
    → All (IsOlder v) us
    → HoldsOlder v h
    → HoldsOlder v (offer_all us h)
unfolding All
offer_all-HoldsOlder v [] h old k = k
offer_all-HoldsOlder v (u ∷ us) h old k =
    offer_all-HoldsOlder v us (offer u h) old.1 (offer-HoldsOlder v u h old.0 k)

abbrev KnowsOlder : ConfigUpdate → Register → Type 0
KnowsOlder v r = HoldsOlder v r.held × All (IsOlder v) r.late

act-KnowsOlder :
    (Value : Type 0) (v : ConfigUpdate) (t : Turn Value) (r : Register)
    → All (IsOlder v) (received t)
    → KnowsOlder v r
    → KnowsOlder v (act t r)
unfolding All
act-KnowsOlder Value v (whole e) r old h =
    (offer_all-HoldsOlder v (updates (e ∷ [])) r.held old h.0, h.1)
act-KnowsOlder Value v (check now sender u) r old h =
    elim (Bool-cases (ltb (r.held.0) u.sync_version)) [
      | inl e ↦ rw (act, e) (h.0, (old.0, h.1))
      | inr e ↦ rw (act, e) h
    ]
act-KnowsOlder Value v (write now k) r old h = elim (Option-cases (nth k r.late)) [
  | inl e ↦ rw (act, e) h
  | inr (u, e) ↦ rw (act, e) (All-nth (IsOlder v) k r.late u h.1 e)
]

act_all-KnowsOlder :
    (Value : Type 0) (v : ConfigUpdate) (ts : List (Turn Value)) (r : Register)
    → All (IsOlder v) (all_received ts)
    → KnowsOlder v r
    → KnowsOlder v (act_all ts r)
act_all-KnowsOlder Value v [] r old h = h
act_all-KnowsOlder Value v (t ∷ ts) r old h =
    let (first, rest) = All-append (IsOlder v) (received t) (all_received ts) old in
    act_all-KnowsOlder Value v ts (act t r) rest (act-KnowsOlder Value v t r first h)

-- The register that holds the newest update, with nothing under way.
abbrev settled : ConfigUpdate → Register
settled v = record { held = entry v; late = [] }

not_newer : (v u : ConfigUpdate) → IsOlder v u → ltb v.sync_version u.sync_version ≡ false
not_newer v u (inl e) = ground (arith, e)
not_newer v u (inr e) =
    let q : u.sync_version ≡ v.sync_version = ap (λ (h : ℕ × Dict MountConfigWrapper). h.0) e in
    ground (arith, q)

offer_all-settled :
    (v : ConfigUpdate) (us : List ConfigUpdate)
    → All (IsOlder v) us
    → offer_all us (entry v) ≡ entry v
unfolding All
offer_all-settled v [] old = refl
offer_all-settled v (u ∷ us) old = rw (offer, not_newer v u old.0) (offer_all-settled v us old.1)

act-settled :
    (Value : Type 0) (v : ConfigUpdate) (t : Turn Value)
    → All (IsOlder v) (received t)
    → act t (settled v) ≡ settled v
unfolding All
act-settled Value v (whole e) old =
    ap (λ h. record { held = h; late = [] }) (offer_all-settled v (updates (e ∷ [])) old)
act-settled Value v (check now sender u) old = rw (act, not_newer v u old.0) refl
act-settled Value v (write now k) old = refl

act_all-settled :
    (Value : Type 0) (v : ConfigUpdate) (ts : List (Turn Value))
    → All (IsOlder v) (all_received ts)
    → act_all ts (settled v) ≡ settled v
act_all-settled Value v [] old = refl
act_all-settled Value v (t ∷ ts) old =
    let (first, rest) = All-append (IsOlder v) (received t) (all_received ts) old in
    ap (act_all ts) (act-settled Value v t first) ∙ act_all-settled Value v ts rest

offer-newest :
    (v : ConfigUpdate) (h : ℕ × Dict MountConfigWrapper) → HoldsOlder v h → offer v h ≡ entry v
unfolding All
offer-newest v h (inl e) = ground (arith, e)
offer-newest v h (inr e) = rw (e) (offer_all-settled v (v ∷ []) (inr refl, tt))

module _ {Value : Type 0} (to_value : MountConfig → Option Value) (null : Value)
    (sign : String → String) where
  turns-append :
      (rs ss : List (Turn Value)) (t : Tasks)
      → turns to_value null sign (rs ++ ss) t
        ≡ turns to_value null sign ss (turns to_value null sign rs t)
  unfolding turns
  turns-append [] ss t = refl
  turns-append (r ∷ rs) ss t = turns-append rs ss (turn to_value null sign r t)

  -- If each update brings cluster settings, and one is newer than the coordinator, and every other
  -- that arrives is older than it or holds the same version and mounts, then a coordinator that
  -- handles it while no other update is between its check and its write ends with its version and
  -- mounts, whatever else arrives before and after and however those tasks interleave.
  pub newest_is_kept :
      (rs ss : List (Turn Value)) (s : SyncCoordinator) (v : ConfigUpdate) (now : ℕ)
      (sender : String)
      → AllClustered (v ∷ all_received rs)
      → AllClustered (all_received ss)
      → All (IsOlder v) (all_received rs)
      → All (IsOlder v) (all_received ss)
      → sync_version_of s.config < v.sync_version
      → (turns to_value null sign rs (begin s)).checked ≡ []
      → content
          (turns to_value null sign
            (rs ++ whole (message now sender (config_update v)) ∷ ss)
            (begin s)).coordinator.config
        ≡ (v.sync_version, v.config.mounts)
  unfolding All
  newest_is_kept rs ss s v now sender h k old_rs old_ss newer quiet =
      let r : Turn Value = whole (message now sender (config_update v)) in
      let before = turns to_value null sign rs (begin s) in
      let first = turns-register to_value null sign rs (begin s) h.1 tt in
      let knows = act_all-KnowsOlder Value v rs (register_of (begin s)) old_rs (inl newer, tt) in
      let held = (subst (KnowsOlder v) (sym first) knows).0 in
      let second = turns-register to_value null sign (r ∷ ss) before (h.0, k) (rw quiet tt) in
      let now_settled : act r (register_of before) ≡ settled v =
        ap₂ (λ a b. record { held = a; late = b }) (offer-newest v _ held) quiet in
      ap (λ (t : Tasks). content t.coordinator.config) (turns-append rs (r ∷ ss) (begin s))
      ∙ ap (λ (q : Register). q.held)
          (second ∙ ap (act_all ss) now_settled ∙ act_all-settled Value v ss old_ss)
