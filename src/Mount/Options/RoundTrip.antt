-- ===== src/Mount/Options/RoundTrip.antt =====
-- What `parse` of src/mount/options.rs reads in the text that `format` gives.
use Prim.Native.Char.{code}
use Prim.Native.String.{◌++◌ as append}
use fuji.Base.{◌≡◌, String, false, none, some, [], ◌∷◌, ◌==◌, Dict}
use fuji.Mount.Options.Text.{trim, split_once}
use fuji.Mount.Options.Parse.{format_option}
use fuji.Mount.Options.Join.{NoComma}

-- A text without an equals sign.
abbrev pub NoEquals : String → Type 0
NoEquals String.[] = Unit
NoEquals (String.◌∷◌ c s) = ((code c == b'=') ≡ false) × NoEquals s

-- An entry that can be printed and told from its neighbours.
pub record IsPlain (entry : String × String) : Type 0 where
  pub key : NoEquals (entry.0)
  pub no_comma : NoComma (format_option entry)
  pub trimmed : trim (format_option entry) ≡ format_option entry

abbrev pub AllPlain : Dict String → Type 0
AllPlain [] = Unit
AllPlain (e ∷ es) = IsPlain e × AllPlain es

-- The key and the value of an option, as `parse` takes them apart; an option without a value is
-- stored with an empty one.
abbrev pub read_option : String → String × String
read_option opt = elim (split_once opt) [ some entry ↦ entry | none ↦ (opt, "") ]
