-- ===== src/Sync/Coordinator/Tasks/Kept.antt =====
-- What the interleaved tasks of src/sync/coordinator.rs keep: the version that was held while no
-- update was under way.
use fuji.Base.{
  ℕ, ◌≤◌, String, Option, List, [], ◌∷◌, ◌≡◌, sym, subst, arith, inl, inr, Bool-cases, Option-cases,
  ltb, Dict,
}
use fuji.Mount.Config.{MountConfig}
use fuji.Config.{MountConfigWrapper}
use fuji.Sync.Merge.Configs.{sync_version_of}
use fuji.Sync.Protocol.{ConfigUpdate}
use fuji.Sync.Coordinator.Updates.{offer, offer_all, updates, AllClustered}
use fuji.Sync.Coordinator.Tasks.{Tasks, Turn, whole, check, write, nth, turns}
use fuji.Sync.Coordinator.Tasks.Register.{
  All, All-nth, all_received, Register, act, act_all, register_of, turns-register,
}

-- A lower bound of what is held and of what is to be written.
abbrev IsAbove : ℕ → Register → Type 0
IsAbove n r = (n ≤ r.held.0) × All (λ u. n ≤ u.sync_version) r.late

offer_all-above :
    (n : ℕ) (us : List ConfigUpdate) (h : ℕ × Dict MountConfigWrapper)
    → n ≤ h.0
    → n ≤ (offer_all us h).0
offer_all-above n [] h k = k
offer_all-above n (u ∷ us) h k = offer_all-above n us (offer u h) (ground (arith, k))

act-IsAbove :
    (Value : Type 0) (n : ℕ) (t : Turn Value) (r : Register) → IsAbove n r → IsAbove n (act t r)
unfolding All
act-IsAbove Value n (whole e) r h = (offer_all-above n (updates (e ∷ [])) r.held h.0, h.1)
act-IsAbove Value n (check now sender u) r h = elim (Bool-cases (ltb (r.held.0) u.sync_version)) [
  | inl e ↦ rw (act, e) (h.0, (ground (arith, e, h.0), h.1))
  | inr e ↦ rw (act, e) h
]
act-IsAbove Value n (write now k) r h = elim (Option-cases (nth k r.late)) [
  | inl e ↦ rw (act, e) h
  | inr (u, e) ↦ rw (act, e) (All-nth (λ w. n ≤ w.sync_version) k r.late u h.1 e)
]

act_all-IsAbove :
    (Value : Type 0) (n : ℕ) (ts : List (Turn Value)) (r : Register)
    → IsAbove n r
    → IsAbove n (act_all ts r)
act_all-IsAbove Value n [] r h = h
act_all-IsAbove Value n (t ∷ ts) r h =
    act_all-IsAbove Value n ts (act t r) (act-IsAbove Value n t r h)

module _ {Value : Type 0} (to_value : MountConfig → Option Value) (null : Value)
    (sign : String → String) where
  -- If each update brings cluster settings, then from a time when no update is between its check
  -- and its write the sync version never falls below the one that is held then, however the steps
  -- of later tasks interleave.
  pub turns-version_kept :
      (rs : List (Turn Value)) (t : Tasks)
      → AllClustered (all_received rs)
      → t.checked ≡ []
      → sync_version_of t.coordinator.config
        ≤ sync_version_of (turns to_value null sign rs t).coordinator.config
  unfolding All
  turns-version_kept rs t h quiet =
      let q = turns-register to_value null sign rs t h (rw quiet tt) in
      let n = sync_version_of t.coordinator.config in
      let above : IsAbove n (register_of t) = (omega arith, rw quiet tt) in
      (subst (IsAbove n) (sym q) (act_all-IsAbove Value n rs (register_of t) above)).0
