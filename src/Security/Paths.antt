-- ===== src/Security/Paths.antt =====
-- `Path` and `str` of the standard library, as src/security/path_security.rs uses them. A path is a
-- text, and is compared by its components.
use Prim.Native.Char.{code}
use Prim.Native.String.{◌++◌ as append}
use fuji.Base.{
  ℕ, String, Bool, true, false, ◌&&◌, ◌||◌, List, [], ◌∷◌, ◌++◌, ◌≡◌, refl, ap₂, sym, ◌↔◌, inl, inr,
  ◌==◌, ==_iff, eq_iff, str_eq, if◌then◌else◌, Bool-cases,
}
use mathlib.Core.Bool.{false≢true}
use fuji.Mount.Options.Text.{codes, is_empty}

unfoldable pub is_prefix {ℓ} : {A : Type ℓ} → (A → A → Bool) → List A → List A → Bool
is_prefix same [] ys = true
is_prefix same (x ∷ xs) [] = false
is_prefix same (x ∷ xs) (y ∷ ys) = same x y && is_prefix same xs ys

-- `str::starts_with`, the text first.
unfoldable pub starts_with : String → String → Bool
unfolding is_prefix
starts_with s prefix = is_prefix (λ a b. a == b) (codes prefix) (codes s)

unfoldable pub contains : String → String → Bool
unfolding starts_with
contains String.[] pattern = starts_with String.[] pattern
contains (String.◌∷◌ c s) pattern = starts_with (String.◌∷◌ c s) pattern || contains s pattern

-- One piece more than there are slashes.
unfoldable pub split_slashes : String → List String
split_slashes String.[] = String.[] ∷ []
split_slashes (String.◌∷◌ c s) = elim (split_slashes s) [
  | [] ↦ String.◌∷◌ c String.[] ∷ []
  | piece ∷ pieces ↦
      if code c == b'/' then String.[] ∷ piece ∷ pieces else String.◌∷◌ c piece ∷ pieces
]

-- Repeated slashes and the dots after the first component are dropped.
unfoldable pub normal : List String → List String
normal [] = []
normal (p ∷ ps) = let rest = normal ps in if is_empty p || str_eq p "." then rest else p ∷ rest

-- `Path::components`; the root is the component `/`.
unfoldable pub components : String → List String
unfolding split_slashes normal
components String.[] = []
components (String.◌∷◌ c s) = elim (split_slashes (String.◌∷◌ c s)) [
  | [] ↦ []
  | piece ∷ pieces ↦ if is_empty piece then "/" ∷ normal pieces else piece ∷ normal pieces
]

-- `Path::starts_with`, the path first.
unfoldable pub path_starts_with : String → String → Bool
unfolding is_prefix components
path_starts_with path base = is_prefix str_eq (components base) (components path)

unfoldable pub is_absolute : String → Bool
is_absolute String.[] = false
is_absolute (String.◌∷◌ c s) = code c == b'/'

unfoldable pub drop_last : List String → List String
drop_last [] = []
drop_last (p ∷ []) = []
drop_last (p ∷ q ∷ ps) = p ∷ drop_last (q ∷ ps)

-- The components with a slash after each but the root.
unfoldable pub join_components : List String → String
join_components [] = ""
join_components (p ∷ ps) =
    let rest = join_components ps in append p (if str_eq p "/" then rest else append "/" rest)

-- `path.parent().unwrap_or("/").join(target)` for a relative target: the parent of the root is
-- absent, as is that of the empty path.
unfoldable pub sibling : String → String → String
unfolding components drop_last join_components
sibling path target = elim (components path) [
  | [] ↦ append "/" target
  | p ∷ [] ↦ if str_eq p "/" then append "/" target else target
  | p ∷ q ∷ ps ↦ append (join_components (drop_last (p ∷ q ∷ ps))) target
]

-- The path is the base or lies below it.
unfoldable pub IsBelow : String → String → Type 0
IsBelow path base = (rest : List String) × (components path ≡ components base ++ rest)

-- The text begins with the other.
unfoldable pub Extends : String → String → Type 0
Extends s prefix = (rest : List ℕ) × (codes s ≡ codes prefix ++ rest)

module _ {ℓ} {A : Type ℓ} (same : A → A → Bool)
    (same_iff : (a b : A) → (same a b ≡ true) ↔ (a ≡ b)) where
  prefix-rest : (xs ys : List A) → is_prefix same xs ys ≡ true → (rest : List A) × (ys ≡ xs ++ rest)
  unfolding is_prefix
  prefix-rest [] ys h = (ys, refl)
  prefix-rest (x ∷ xs) [] h = absurd (false≢true h)
  prefix-rest (x ∷ xs) (y ∷ ys) h = elim (Bool-cases (same x y)) [
    | inl e ↦
        let (rest, q) = prefix-rest xs ys (rw (is_prefix, e) at h) in
        (rest, ap₂ (λ a l. a ∷ l) (sym ((same_iff x y).0 e)) q)
    | inr e ↦ absurd (false≢true (rw (is_prefix, e) at h))
  ]

  prefix-append : (xs rest : List A) → is_prefix same xs (xs ++ rest) ≡ true
  unfolding is_prefix
  prefix-append [] rest = refl
  prefix-append (x ∷ xs) rest = rw ((same_iff x x).1 refl, prefix-append xs rest) refl

  rest-prefix : (xs ys rest : List A) → ys ≡ xs ++ rest → is_prefix same xs ys ≡ true
  rest-prefix xs ys rest q = rw (q) (prefix-append xs rest)

-- `starts_with` finds exactly the texts that begin with the other.
pub starts_with-Extends : (s prefix : String) → (starts_with s prefix ≡ true) ↔ Extends s prefix
unfolding starts_with Extends
starts_with-Extends s prefix = (
  prefix-rest (λ a b. a == b) ==_iff (codes prefix) (codes s),
  λ (rest, q). rest-prefix (λ a b. a == b) ==_iff (codes prefix) (codes s) rest q,
)

-- `Path::starts_with` finds exactly the paths that are the base or lie below it.
pub path_starts_with-IsBelow :
    (path base : String) → (path_starts_with path base ≡ true) ↔ IsBelow path base
unfolding path_starts_with IsBelow
path_starts_with-IsBelow path base = (
  prefix-rest str_eq eq_iff (components base) (components path),
  λ (rest, q). rest-prefix str_eq eq_iff (components base) (components path) rest q,
)
