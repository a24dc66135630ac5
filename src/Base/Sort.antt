-- ===== src/Base/Sort.antt =====
-- The stable sort of the standard library, `sort_by`, as insertion sort.
use mathlib.Core.Path.{◌≡◌, refl, sym, subst}
use mathlib.Core.Bool.{Bool, true, false}
use mathlib.Core.Logic.{◌⊎◌, inl, inr}
use mathlib.Core.List.{List, [], ◌∷◌, Memᴰ}
use fuji.Base.Tests.{if◌then◌else◌, Bool-cases}

module _ {ℓ} {A : Type ℓ} (leq : A → A → Bool) where
  -- Before the first element that it may stand before.
  unfoldable pub insert_by : A → List A → List A
  insert_by x [] = x ∷ []
  insert_by x (y ∷ ys) = if leq x y then x ∷ y ∷ ys else y ∷ insert_by x ys

  unfoldable pub sort_by : List A → List A
  unfolding insert_by
  sort_by [] = []
  sort_by (x ∷ xs) = insert_by x (sort_by xs)

  mem_of_insert_by : (w x : A) (ys : List A) → Memᴰ w (insert_by x ys) → (w ≡ x) ⊎ Memᴰ w ys
  unfolding insert_by
  mem_of_insert_by w x [] (Memᴰ.head e) = inl e
  mem_of_insert_by w x [] (Memᴰ.tail m) = inr m
  mem_of_insert_by w x (y ∷ ys) m = elim (Bool-cases (leq x y)) [
    | inl before ↦ in_cons (rw (before, insert_by) at m)
    | inr after ↦ later (rw (after, insert_by) at m) (mem_of_insert_by w x ys)
  ]
    where
      in_cons : Memᴰ w (x ∷ y ∷ ys) → (w ≡ x) ⊎ Memᴰ w (y ∷ ys)
      in_cons (Memᴰ.head e) = inl e
      in_cons (Memᴰ.tail m) = inr m

      later :
          Memᴰ w (y ∷ insert_by x ys)
          → (Memᴰ w (insert_by x ys) → (w ≡ x) ⊎ Memᴰ w ys)
          → (w ≡ x) ⊎ Memᴰ w (y ∷ ys)
      later (Memᴰ.head e) ih = inr (Memᴰ.head e)
      later (Memᴰ.tail m) ih = elim (ih m) [ inl e ↦ inl e | inr t ↦ inr (Memᴰ.tail t) ]

  mem-insert_by : (w x : A) (ys : List A) → (w ≡ x) ⊎ Memᴰ w ys → Memᴰ w (insert_by x ys)
  unfolding insert_by
  mem-insert_by w x [] (inl e) = Memᴰ.head e
  mem-insert_by w x [] (inr m) = Memᴰ.tail m
  mem-insert_by w x (y ∷ ys) m = elim (Bool-cases (leq x y)) [
    | inl before ↦ rw (before, insert_by) (in_cons m)
    | inr after ↦ rw (after, insert_by) (later m (mem-insert_by w x ys))
  ]
    where
      in_cons : (w ≡ x) ⊎ Memᴰ w (y ∷ ys) → Memᴰ w (x ∷ y ∷ ys)
      in_cons (inl e) = Memᴰ.head e
      in_cons (inr m) = Memᴰ.tail m

      later :
          (w ≡ x) ⊎ Memᴰ w (y ∷ ys)
          → ((w ≡ x) ⊎ Memᴰ w ys → Memᴰ w (insert_by x ys))
          → Memᴰ w (y ∷ insert_by x ys)
      later (inl e) ih = Memᴰ.tail (ih (inl e))
      later (inr (Memᴰ.head e)) ih = Memᴰ.head e
      later (inr (Memᴰ.tail m)) ih = Memᴰ.tail (ih (inr m))

  pub mem_of_sort_by : (w : A) (xs : List A) → Memᴰ w (sort_by xs) → Memᴰ w xs
  unfolding sort_by
  mem_of_sort_by w [] m = m
  mem_of_sort_by w (x ∷ xs) m = elim (mem_of_insert_by w x (sort_by xs) m) [
    | inl e ↦ Memᴰ.head e
    | inr t ↦ Memᴰ.tail (mem_of_sort_by w xs t)
  ]

  pub mem-sort_by : (w : A) (xs : List A) → Memᴰ w xs → Memᴰ w (sort_by xs)
  unfolding sort_by
  mem-sort_by w [] m = elim m [ ]
  mem-sort_by w (x ∷ xs) (Memᴰ.head e) = mem-insert_by w x (sort_by xs) (inl e)
  mem-sort_by w (x ∷ xs) (Memᴰ.tail m) = mem-insert_by w x (sort_by xs) (inr (mem-sort_by w xs m))

  -- The first element may stand before all.
  abbrev pub HeadLeast : List A → Type ℓ
  HeadLeast [] = Unit
  HeadLeast (y ∷ ys) = (w : A) → Memᴰ w (y ∷ ys) → leq y w ≡ true

  module _ (total : (a b : A) → (leq a b ≡ true) ⊎ (leq b a ≡ true))
      (trans : (a b c : A) → leq a b ≡ true → leq b c ≡ true → leq a c ≡ true) where
    leq_refl : (a : A) → leq a a ≡ true
    leq_refl a = elim (total a a) [ inl e ↦ e | inr e ↦ e ]

    leq_of_eq : (a b : A) → b ≡ a → leq a b ≡ true
    leq_of_eq a b e = subst (λ c. leq a c ≡ true) (sym e) (leq_refl a)

    leq_of_not : (a b : A) → leq a b ≡ false → leq b a ≡ true
    leq_of_not a b n = elim (total a b) [ inl e ↦ cc | inr e ↦ e ]

    insert_by-HeadLeast : (x : A) (ys : List A) → HeadLeast ys → HeadLeast (insert_by x ys)
    unfolding insert_by
    insert_by-HeadLeast x [] h = alone
      where
        alone : HeadLeast (x ∷ [])
        alone w (Memᴰ.head e) = leq_of_eq x w e
        alone w (Memᴰ.tail m) = elim m [ ]
    insert_by-HeadLeast x (y ∷ ys) h = elim (Bool-cases (leq x y)) [
      | inl before ↦ rw (before, insert_by) (first before)
      | inr after ↦ rw (after, insert_by) (stays (leq_of_not x y after))
    ]
      where
        first : leq x y ≡ true → HeadLeast (x ∷ y ∷ ys)
        first before w (Memᴰ.head e) = leq_of_eq x w e
        first before w (Memᴰ.tail m) = trans x y w before (h w m)

        stays : leq y x ≡ true → HeadLeast (y ∷ insert_by x ys)
        stays after w (Memᴰ.head e) = leq_of_eq y w e
        stays after w (Memᴰ.tail m) = elim (mem_of_insert_by w x ys m) [
          | inl e ↦ subst (λ c. leq y c ≡ true) (sym e) after
          | inr t ↦ h w (Memᴰ.tail t)
        ]

    sort_by-HeadLeast : (xs : List A) → HeadLeast (sort_by xs)
    unfolding sort_by
    sort_by-HeadLeast [] = tt
    sort_by-HeadLeast (x ∷ xs) = insert_by-HeadLeast x (sort_by xs) (sort_by-HeadLeast xs)

    -- The head of the sorted list is an element that may stand before all elements.
    pub sort_by-head :
        (xs : List A) {y : A} {ys : List A}
        → sort_by xs ≡ y ∷ ys
        → Memᴰ y xs × ((w : A) → Memᴰ w xs → leq y w ≡ true)
    sort_by-head xs {y} {ys} e = (
      mem_of_sort_by y xs (subst (λ l. Memᴰ y l) (sym e) (Memᴰ.head refl)),
      λ w m.
          subst HeadLeast e (sort_by-HeadLeast xs) w (subst (λ l. Memᴰ w l) e (mem-sort_by w xs m)),
    )
