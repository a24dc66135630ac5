-- ===== src/Base/Order.antt =====
-- The order of texts, `str::cmp`, is a total order; and the stable sort of the standard library.
use Prim.Native.Nat.{ℕ, compare as compare_ℕ, Ordering}
use Prim.Native.Char.{code}
use Prim.Native.String.compare
use Prim.Native.String.{String, compare, then}
use mathlib.Core.Path.{◌≡◌, refl}
use mathlib.Core.Bool.{Bool, true, false, false≢true}
use mathlib.Core.Logic.{◌⊎◌, inl, inr}
use native.Mathlib.Omega.{arith}
use text.Mathlib.TextEquality.{path_by_compare}

abbrev pub not_gt : Ordering → Bool
not_gt Ordering.gt = false
not_gt _ = true

-- `a <= b` of texts.
abbrev pub str_leb : String → String → Bool
str_leb a b = not_gt (compare a b)

flip : Ordering → Ordering
flip Ordering.lt = Ordering.gt
flip Ordering.eq = Ordering.eq
flip Ordering.gt = Ordering.lt

flip-compare_ℕ : (m n : ℕ) → compare_ℕ n m ≡ flip (compare_ℕ m n)
unfolding flip
flip-compare_ℕ m n = ground arith

flip-then : (o r : Ordering) → then (flip o) (flip r) ≡ flip (then o r)
unfolding flip
flip-then Ordering.lt r = refl
flip-then Ordering.eq r = refl
flip-then Ordering.gt r = refl

flip-compare : (a b : String) → compare b a ≡ flip (compare a b)
unfolding flip
flip-compare String.[] String.[] = refl
flip-compare String.[] (String.◌∷◌ d t) = rw (compare.nil-cons, compare.cons-nil)
flip-compare (String.◌∷◌ c s) String.[] = rw (compare.nil-cons, compare.cons-nil)
flip-compare (String.◌∷◌ c s) (String.◌∷◌ d t) =
    rw (compare.cons-cons c d s t, compare.cons-cons d c t s)
      (rw (flip-compare s t, flip-compare_ℕ (code c) (code d))
        (flip-then (compare_ℕ (code c) (code d)) (compare s t)))

pub str_leb_total : (a b : String) → (str_leb a b ≡ true) ⊎ (str_leb b a ≡ true)
unfolding flip
str_leb_total a b = rw (flip-compare a b) (split (compare a b))
  where
    split : (o : Ordering) → (not_gt o ≡ true) ⊎ (not_gt (flip o) ≡ true)
    split Ordering.lt = inl refl
    split Ordering.eq = inl refl
    split Ordering.gt = inr refl

pub str_leb_antisym : (a b : String) → str_leb a b ≡ true → str_leb b a ≡ true → a ≡ b
unfolding flip
str_leb_antisym a b h k = path_by_compare a b (split (compare a b) h (rw (flip-compare a b) at k))
  where
    split : (o : Ordering) → not_gt o ≡ true → not_gt (flip o) ≡ true → o ≡ Ordering.eq
    split Ordering.lt p q = cc
    split Ordering.eq p q = refl
    split Ordering.gt p q = cc

pub str_leb_trans : (a b c : String) → str_leb a b ≡ true → str_leb b c ≡ true → str_leb a c ≡ true
str_leb_trans String.[] b String.[] h k = refl
str_leb_trans String.[] b (String.◌∷◌ z u) h k = rw compare.nil-cons
str_leb_trans (String.◌∷◌ x s) String.[] c h k = absurd (false≢true (rw compare.cons-nil at h))
str_leb_trans (String.◌∷◌ x s) (String.◌∷◌ y t) String.[] h k =
    absurd (false≢true (rw compare.cons-nil at k))
str_leb_trans (String.◌∷◌ x s) (String.◌∷◌ y t) (String.◌∷◌ z u) h k = ground (
  arith,
  compare.cons-cons x y s t,
  compare.cons-cons y z t u,
  compare.cons-cons x z s u,
  str_leb_trans s t u,
)
