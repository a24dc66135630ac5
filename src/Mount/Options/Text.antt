-- ===== src/Mount/Options/Text.antt =====
-- The texts that src/mount/options.rs takes apart: `str::split`, `trim` and `parse` of the standard
-- library, and `parse_size`.
use Prim.Native.Char.{code}
use Prim.Native.String.{◌++◌ as append, slice}
use fuji.Base.{
  ℕ, zero, suc, ◌+◌, ◌-◌, ◌*◌, ◌/◌, ◌%◌, ◌^◌, String, Bool, true, false, ◌&&◌, ◌||◌, Option, none,
  some, List, [], ◌∷◌, map, leb, ◌==◌, last?, if◌then◌else◌, Result, ok, err,
}
use fuji.Mount.Options.{OptionError, invalid_size}

-- The code points of a text.
abbrev pub codes : String → List ℕ
codes String.[] = []
codes (String.◌∷◌ c s) = code c ∷ codes s

-- `char::is_whitespace`, the property White_Space of Unicode.
unfoldable pub is_whitespace : ℕ → Bool
is_whitespace n =
    (leb 9 n && leb n 13)
    || n == 32
    || n == 133
    || n == 160
    || n == 5760
    || (leb 8192 n && leb n 8202)
    || n == 8232
    || n == 8233
    || n == 8239
    || n == 8287
    || n == 12288

abbrev pub is_empty : String → Bool
is_empty String.[] = true
is_empty (String.◌∷◌ c s) = false

unfoldable pub trim_start : String → String
unfolding is_whitespace
trim_start String.[] = String.[]
trim_start (String.◌∷◌ c s) =
    let rest = trim_start s in if is_whitespace (code c) then rest else String.◌∷◌ c s

unfoldable pub trim_end : String → String
unfolding is_whitespace
trim_end String.[] = String.[]
trim_end (String.◌∷◌ c s) =
    let rest = trim_end s in
    if is_whitespace (code c) && is_empty rest then String.[] else String.◌∷◌ c rest

abbrev pub trim : String → String
trim s = trim_end (trim_start s)

-- `s.split(',')`: one piece more than there are commas.
unfoldable pub split_commas : String → List String
split_commas String.[] = String.[] ∷ []
split_commas (String.◌∷◌ c s) = elim (split_commas s) [
  | [] ↦ String.◌∷◌ c String.[] ∷ []
  | piece ∷ pieces ↦
      if code c == b',' then String.[] ∷ piece ∷ pieces else String.◌∷◌ c piece ∷ pieces
]

-- `s.split_once('=')`
unfoldable pub split_once : String → Option (String × String)
split_once String.[] = none
split_once (String.◌∷◌ c s) =
    let rest = split_once s in
    if code c == b'='
    then some (String.[], s)
    else elim rest [ some (key, value) ↦ some (String.◌∷◌ c key, value) | none ↦ none ]

-- The digits of `parse`, in a radix of at most ten; a value above the bound is an overflow.
unfoldable pub parse_digits : ℕ → ℕ → ℕ → List ℕ → Option ℕ
parse_digits radix bound value [] = some value
parse_digits radix bound value (c ∷ cs) =
    let next = value * radix + (c - b'0') in
    let rest = parse_digits radix bound next cs in
    if leb b'0' c && leb (c + 1) (b'0' + radix) && leb next bound then rest else none

-- `from_str_radix` of an unsigned type: digits, after a plus sign or none.
unfoldable pub from_str_radix : ℕ → ℕ → List ℕ → Option ℕ
unfolding parse_digits
from_str_radix radix bound [] = none
from_str_radix radix bound (c ∷ []) = parse_digits radix bound 0 (c ∷ [])
from_str_radix radix bound (c ∷ d ∷ ds) =
    if c == b'+'
    then parse_digits radix bound 0 (d ∷ ds)
    else parse_digits radix bound 0 (c ∷ d ∷ ds)

unfoldable pub parse_u32 : String → Option ℕ
unfolding from_str_radix
parse_u32 value = from_str_radix 10 (2 ^ 32 - 1) (codes value)

unfoldable pub parse_usize : List ℕ → Option ℕ
unfolding from_str_radix
parse_usize cs = from_str_radix 10 (2 ^ 64 - 1) cs

-- `to_uppercase`, as far as sizes can tell: no character beyond ASCII becomes a digit or one of the
-- three suffixes, so a size with such a character is refused with the character or without.
abbrev pub to_upper : ℕ → ℕ
to_upper c = if leb b'a' c && leb c b'z' then c - 32 else c

abbrev pub ends_with : ℕ → List ℕ → Bool
ends_with c cs = elim (last? cs) [ some d ↦ d == c | none ↦ false ]

-- `trim_end_matches`, which takes every copy of the character from the end.
unfoldable pub trim_end_matches : ℕ → List ℕ → List ℕ
trim_end_matches c [] = []
trim_end_matches c (d ∷ ds) = elim (trim_end_matches c ds) [
  | [] ↦ if d == c then [] else d ∷ []
  | e ∷ es ↦ d ∷ e ∷ es
]

-- The product wraps in a release build.
abbrev pub scale : ℕ → Option ℕ → Result OptionError ℕ
scale unit (some n) = ok (n * unit % 2 ^ 64)
scale unit none = err invalid_size

unfoldable pub parse_size : String → Result OptionError ℕ
unfolding trim_start trim_end trim_end_matches parse_usize
parse_size value =
    let cs = map to_upper (codes (trim value)) in
    if ends_with b'K' cs
    then scale 1024 (parse_usize (trim_end_matches b'K' cs))
    else if ends_with b'M' cs
    then scale (1024 * 1024) (parse_usize (trim_end_matches b'M' cs))
    else if ends_with b'G' cs
    then scale (1024 * 1024 * 1024) (parse_usize (trim_end_matches b'G' cs))
    else scale 1 (parse_usize cs)

-- `u32` in octal after a leading zero, in decimal without one.
unfoldable pub parse_mode : String → Option ℕ
unfolding parse_u32 from_str_radix
parse_mode String.[] = parse_u32 String.[]
parse_mode (String.◌∷◌ c s) =
    if code c == b'0' then from_str_radix 8 (2 ^ 32 - 1) (codes s) else parse_u32 (String.◌∷◌ c s)

abbrev pub digit : ℕ → String
digit n = slice "0123456789" n (n + 1)

-- `to_string` of a number of at most as many digits as the fuel.
unfoldable pub show_digits : ℕ → ℕ → String
show_digits zero n = ""
show_digits (suc fuel) n =
    let rest = show_digits fuel (n / 10) in
    if n / 10 == 0 then digit (n % 10) else append rest (digit (n % 10))

-- The largest `usize` has twenty digits.
abbrev pub show_usize : ℕ → String
show_usize n = show_digits 20 n
