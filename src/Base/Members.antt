-- ===== src/Base/Members.antt =====
-- Membership in what the searches over lists give.
use mathlib.Core.Path.{◌≡◌, refl, sym, subst}
use mathlib.Core.Bool.{Bool, true, false, decide, false≢true}
use mathlib.Core.Logic.{inl, inr}
use mathlib.Core.Option.{none, some}
use mathlib.Core.List.{List, [], ◌∷◌, Memᴰ}
use native.Mathlib.Omega.{arith}
use fuji.Base.Tests.{Bool-cases}
use fuji.Base.Lists.{any, find, filter}

pub decide-true {ℓ} : {P : Type ℓ} (d : Dec P) → decide d ≡ true → P
unfolding decide
decide-true (yes p) h = p
decide-true (no n) h = absurd (false≢true h)

module _ {ℓ} {A : Type ℓ} (p : A → Bool) where
  pub mem_of_filter : (w : A) (xs : List A) → Memᴰ w (filter p xs) → Memᴰ w xs × (p w ≡ true)
  mem_of_filter w [] m = elim m [ ]
  mem_of_filter w (x ∷ xs) m = elim (Bool-cases (p x)) [
    | inl e ↦ kept e (rw (e, filter) at m) (mem_of_filter w xs)
    | inr e ↦ let (t, q) = mem_of_filter w xs (rw (e, filter) at m) in (Memᴰ.tail t, q)
  ]
    where
      kept :
          p x ≡ true
          → Memᴰ w (x ∷ filter p xs)
          → (Memᴰ w (filter p xs) → Memᴰ w xs × (p w ≡ true))
          → Memᴰ w (x ∷ xs) × (p w ≡ true)
      kept e (Memᴰ.head q) ih = (Memᴰ.head q, subst (λ c. p c ≡ true) (sym q) e)
      kept e (Memᴰ.tail t) ih = let (t', q) = ih t in (Memᴰ.tail t', q)

  pub mem-filter : (w : A) (xs : List A) → Memᴰ w xs → p w ≡ true → Memᴰ w (filter p xs)
  mem-filter w [] m h = elim m [ ]
  mem-filter w (x ∷ xs) (Memᴰ.head q) h = rw (subst (λ c. p c ≡ true) q h, filter) (Memᴰ.head q)
  mem-filter w (x ∷ xs) (Memᴰ.tail t) h = elim (Bool-cases (p x)) [
    | inl e ↦ rw (e, filter) (Memᴰ.tail (mem-filter w xs t h))
    | inr e ↦ rw (e, filter) (mem-filter w xs t h)
  ]

  pub false_of_any : (w : A) (xs : List A) → any p xs ≡ false → Memᴰ w xs → p w ≡ false
  false_of_any w [] h m = elim m [ ]
  false_of_any w (x ∷ xs) h (Memᴰ.head q) = subst (λ c. p c ≡ false) (sym q) (ground (arith, h))
  false_of_any w (x ∷ xs) h (Memᴰ.tail t) = false_of_any w xs (ground (arith, h)) t

  pub member_of_any : (xs : List A) → any p xs ≡ true → (w : A) × Memᴰ w xs × (p w ≡ true)
  member_of_any [] h = cc
  member_of_any (x ∷ xs) h = elim (Bool-cases (p x)) [
    | inl e ↦ (x, Memᴰ.head refl, e)
    | inr e ↦ let (w, t, q) = member_of_any xs (rw e at h) in (w, Memᴰ.tail t, q)
  ]

  pub member_of_find : (w : A) (xs : List A) → find p xs ≡ some w → Memᴰ w xs × (p w ≡ true)
  member_of_find w [] h = cc
  member_of_find w (x ∷ xs) h = elim (Bool-cases (p x)) [
    | inl e ↦
        let q : x ≡ w = ground (arith, h, e) in (Memᴰ.head (sym q), subst (λ c. p c ≡ true) q e)
    | inr e ↦ let (t, q) = member_of_find w xs (rw (e, find) at h) in (Memᴰ.tail t, q)
  ]

  pub false_of_find : (w : A) (xs : List A) → find p xs ≡ none → Memᴰ w xs → p w ≡ false
  false_of_find w [] h m = elim m [ ]
  false_of_find w (x ∷ xs) h m = elim (Bool-cases (p x)) [
    | inl e ↦ cc
    | inr e ↦ elim m [
      | Memᴰ.head q ↦ subst (λ c. p c ≡ false) (sym q) e
      | Memᴰ.tail t ↦ false_of_find w xs (rw (e, find) at h) t
    ]
  ]

  pub any-false : (xs : List A) → ((w : A) → Memᴰ w xs → p w ≡ false) → any p xs ≡ false
  any-false [] h = refl
  any-false (x ∷ xs) h = rw (h x (Memᴰ.head refl)) (any-false xs (λ w m. h w (Memᴰ.tail m)))

  pub any-true : (w : A) (xs : List A) → Memᴰ w xs → p w ≡ true → any p xs ≡ true
  any-true w [] m h = elim m [ ]
  any-true w (x ∷ xs) (Memᴰ.head q) h = rw (subst (λ c. p c ≡ true) q h) refl
  any-true w (x ∷ xs) (Memᴰ.tail t) h = let rest = any-true w xs t h in ground (arith, rest)

  pub find-none : (xs : List A) → ((w : A) → Memᴰ w xs → p w ≡ false) → find p xs ≡ none
  find-none [] h = refl
  find-none (x ∷ xs) h = rw (find, h x (Memᴰ.head refl)) (find-none xs (λ w m. h w (Memᴰ.tail m)))
