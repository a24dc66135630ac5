-- ===== src/Base/Entries.antt =====
-- Properties of all entries of a map, which inserting and removing keep.
use Prim.Native.Nat.{suc, ◌≤◌}
use Prim.Native.String.{String}
use mathlib.Core.Path.{◌≡◌, subst}
use mathlib.Core.Logic.{inl, inr}
use mathlib.Core.Option.{some}
use mathlib.Core.List.{[], ◌∷◌}
use native.Mathlib.Omega.{arith}
use text.Mathlib.TextEquality.{eq_iff}
use text.Mathlib.TextPositions.{eq_refl}
use fuji.Base.Tests.{str_eq, Bool-cases}
use fuji.Base.Lists.{length}
use fuji.Base.Maps.{Dict, get, insert, remove}

module _ {ℓ κ} {V : Type ℓ} (P : String → V → Type κ) where
  abbrev pub AllEntries : Dict V → Type κ
  AllEntries [] = Unit
  AllEntries ((k, v) ∷ m) = P k v × AllEntries m

  pub insert-AllEntries :
      (k : String) (v : V) (m : Dict V) → P k v → AllEntries m → AllEntries (insert k v m)
  unfolding insert
  insert-AllEntries k v [] p h = (p, tt)
  insert-AllEntries k v ((j, w) ∷ m) p h = elim (Bool-cases (str_eq j k)) [
    | inl e ↦ rw (e, insert) (p, h.1)
    | inr e ↦ rw (e, insert) (h.0, insert-AllEntries k v m p h.1)
  ]

  pub remove-AllEntries : (k : String) (m : Dict V) → AllEntries m → AllEntries (remove k m)
  unfolding remove
  remove-AllEntries k [] h = tt
  remove-AllEntries k ((j, w) ∷ m) h = elim (Bool-cases (str_eq j k)) [
    | inl e ↦ rw (e, remove) (remove-AllEntries k m h.1)
    | inr e ↦ rw (e, remove) (h.0, remove-AllEntries k m h.1)
  ]

  -- An entry that is found has the property.
  pub get-AllEntries : (k : String) (v : V) (m : Dict V) → get k m ≡ some v → AllEntries m → P k v
  unfolding get
  get-AllEntries k v [] e h = cc
  get-AllEntries k v ((j, w) ∷ m) e h = elim (Bool-cases (str_eq j k)) [
    | inl q ↦
        let same : w ≡ v = ground (arith, e, q) in
        subst (λ i. P i v) ((eq_iff j k).0 q) (subst (P j) same h.0)
    | inr q ↦ get-AllEntries k v m (rw (q, get) at e) h.1
  ]

module _ {ℓ} {V : Type ℓ} where
  pub length-insert : (k : String) (v : V) (m : Dict V) → length (insert k v m) ≤ suc (length m)
  unfolding insert
  length-insert k v [] = omega arith
  length-insert k v ((j, w) ∷ m) = ground (arith, length-insert k v m)

  pub remove-insert : (k : String) (v : V) (m : Dict V) → remove k (insert k v m) ≡ remove k m
  unfolding insert remove
  remove-insert k v [] = ground (arith, eq_refl k)
  remove-insert k v ((j, w) ∷ m) = ground (arith, remove-insert k v m, eq_refl k)
