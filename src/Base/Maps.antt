-- ===== src/Base/Maps.antt =====
-- `HashMap<String, V>` as an association list. A new key goes to the end, so that a fold over the
-- list visits the entries in the order of their insertion; a hash map fixes no order.
use Prim.Native.String.{String}
use mathlib.Core.Path.{◌≡◌, refl}
use mathlib.Core.Bool.{Bool, true, false}
use mathlib.Core.Option.{Option, none, some}
use mathlib.Core.List.{List, [], ◌∷◌}
use native.Mathlib.Omega.{arith}
use text.Mathlib.TextEquality.{eq_iff}
use mathlib.Core.Logic.{inl, inr}
use fuji.Base.Tests.{str_eq, if◌then◌else◌, Bool-cases}

abbrev pub Dict {ℓ} : Type ℓ → Type ℓ
Dict V = List (String × V)

module _ {ℓ} {V : Type ℓ} where
  unfoldable pub get : String → Dict V → Option V
  get k [] = none
  get k ((j, v) ∷ m) = if str_eq j k then some v else get k m

  unfoldable pub insert : String → V → Dict V → Dict V
  insert k v [] = (k, v) ∷ []
  insert k v ((j, w) ∷ m) = if str_eq j k then (k, v) ∷ m else (j, w) ∷ insert k v m

  unfoldable pub remove : String → Dict V → Dict V
  remove k [] = []
  remove k ((j, w) ∷ m) = let rest = remove k m in if str_eq j k then rest else (j, w) ∷ rest

  abbrev pub is_some : Option V → Bool
  is_some none = false
  is_some (some v) = true

  abbrev pub contains_key : String → Dict V → Bool
  contains_key k m = is_some (get k m)

  pub get-insert :
      (k j : String) (v : V) (m : Dict V)
      → get j (insert k v m) ≡ (if str_eq k j then some v else get j m)
  unfolding get insert
  get-insert k j v [] = refl
  get-insert k j v ((i, w) ∷ m) =
      ground (arith, eq_iff k j, eq_iff i k, eq_iff i j, get-insert k j v m)

  pub get-remove :
      (k j : String) (m : Dict V) → get j (remove k m) ≡ (if str_eq k j then none else get j m)
  unfolding get remove
  get-remove k j [] = ground arith
  get-remove k j ((i, w) ∷ m) = ground (arith, get-remove k j m, eq_iff i k, eq_iff i j, eq_iff k j)

  -- Each key stands in one entry, as in every hash map.
  abbrev pub UniqueKeys : Dict V → Type ℓ
  UniqueKeys [] = Unit
  UniqueKeys ((k, v) ∷ m) = (get k m ≡ none) × UniqueKeys m

  pub insert-UniqueKeys :
      (k : String) (v : V) (m : Dict V) → UniqueKeys m → UniqueKeys (insert k v m)
  unfolding get insert
  insert-UniqueKeys k v [] h = (refl, tt)
  insert-UniqueKeys k v ((j, w) ∷ m) h = elim (Bool-cases (str_eq j k)) [
    | inl e ↦ rw (e, insert) (rw ((eq_iff j k).0 e) at h.0, h.1)
    | inr e ↦
        rw (e, insert)
          (
            ground (arith, get-insert k j v m, eq_iff k j, eq_iff j k, h.0),
            insert-UniqueKeys k v m h.1,
          )
  ]
