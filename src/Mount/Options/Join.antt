-- ===== src/Mount/Options/Join.antt =====
-- `format` and the split at the commas in `parse` of src/mount/options.rs.
use Prim.Native.Char.{Char, code}
use Prim.Native.String.append.{nil, cons}
use Prim.Native.String.{◌++◌ as append}
use fuji.Base.{
  inl, inr, Bool-cases, ◌≡◌, refl, ap, ◌∙◌, String, false, List, [], ◌∷◌, map, ◌==◌, if◌then◌else◌,
  str_leb, sort_by, Dict,
}
use fuji.Mount.Options.{MountOptions}
use fuji.Mount.Options.Text.{split_commas}
use fuji.Mount.Options.Parse.{format_option, join_commas}

-- A text without a comma.
abbrev pub NoComma : String → Type 0
NoComma String.[] = Unit
NoComma (String.◌∷◌ c s) = ((code c == b',') ≡ false) × NoComma s

abbrev pub AllNoComma : List String → Type 0
AllNoComma [] = Unit
AllNoComma (s ∷ ss) = NoComma s × AllNoComma ss

abbrev pub IsCons : List String → Type 0
IsCons [] = ⊥
IsCons (s ∷ ss) = Unit

split_commas_lem : (s : String) → NoComma s → split_commas s ≡ s ∷ []
unfolding split_commas
split_commas_lem String.[] h = refl
split_commas_lem (String.◌∷◌ c s) h = rw (split_commas_lem s h.1, h.0) refl

split_commas-IsCons : (s : String) → IsCons (split_commas s)
unfolding split_commas
split_commas-IsCons String.[] = tt
split_commas-IsCons (String.◌∷◌ c s) = by_rest (split_commas s)
  where
    by_rest :
        (l : List String)
        → IsCons (elim l [
          | [] ↦ String.◌∷◌ c String.[] ∷ []
          | piece ∷ pieces ↦
              if code c == b',' then String.[] ∷ piece ∷ pieces else String.◌∷◌ c piece ∷ pieces
        ])
    by_rest [] = tt
    by_rest (piece ∷ pieces) = elim (Bool-cases (code c == b',')) [
      | inl e ↦ rw e tt
      | inr e ↦ rw e tt
    ]

pub append_cons : (c : Char) (s t : String) → append (String.◌∷◌ c s) t ≡ String.◌∷◌ c (append s t)
append_cons c s t = λ i. cons c s t i

pub append_nil : (t : String) → append String.[] t ≡ t
append_nil t = λ i. nil t i

-- A comma in front starts a piece.
split_commas_start : (t : String) → split_commas (append "," t) ≡ String.[] ∷ split_commas t
unfolding split_commas
split_commas_start t =
    ap split_commas (append_cons _ String.[] t ∙ ap (String.◌∷◌ _) (append_nil t))
    ∙ started (split_commas t) (split_commas-IsCons t)
  where
    started :
        (l : List String)
        → IsCons l
        → (elim l [ [] ↦ "," ∷ [] | piece ∷ pieces ↦ String.[] ∷ piece ∷ pieces ]) ≡ String.[] ∷ l
    started [] h = absurd h
    started (piece ∷ pieces) h = refl

split_commas-append :
    (s t : String) → NoComma s → split_commas (append s (append "," t)) ≡ s ∷ split_commas t
unfolding split_commas
split_commas-append String.[] t h =
    ap split_commas (append_nil (append "," t)) ∙ split_commas_start t
split_commas-append (String.◌∷◌ c s) t h =
    ap split_commas (append_cons c s (append "," t))
    ∙ rw (split_commas, split_commas-append s t h.1, h.0) refl

-- Texts without commas that are joined with commas are what splitting gives back.
pub split_commas-join_commas :
    (ss : List String) → IsCons ss → AllNoComma ss → split_commas (join_commas ss) ≡ ss
unfolding join_commas
split_commas-join_commas [] n h = absurd n
split_commas-join_commas (s ∷ []) n h = split_commas_lem s h.0
split_commas-join_commas (s ∷ t ∷ ss) n h =
    split_commas-append s (join_commas (t ∷ ss)) h.0
    ∙ ap (λ l. s ∷ l) (split_commas-join_commas (t ∷ ss) tt h.1)

-- The options in the order of their keys, and printed.
abbrev pub sorted : MountOptions → Dict String
sorted o = sort_by (λ a b. str_leb (a.0) (b.0)) o.options

abbrev pub printed : MountOptions → List String
printed o = map format_option (sorted o)
