-- ===== src/Prelude/Chars.antt =====
-- The string methods of the source that look at single characters, `Number.parseInt` and the
-- conversions between texts and base64url that src/routes/lease-middleware.ts and
-- src/wire/signet-verify.ts spell out over `btoa` and `atob`.
use Prim.Native.Nat.{ℕ, ◌+◌, ◌-◌, ◌*◌, ◌%◌, ◌^◌}
use Prim.Native.Char.{Char, code}
use Prim.Native.String.{String, [], ◌∷◌, slice, count}
use mathlib.Core.Bool.{Bool, ◌&&◌, ◌||◌}
use mathlib.Core.Option.{Option, none, some}
use mathlib.Core.List.{List}
use package.cloister.Prelude.Tests.{leb, nat_beq, if◌then◌else◌}
use package.cloister.Prelude.Text.{◌&◌}

-- The text before the first character with this number, and the text after it: `s.indexOf(c)` with
-- the two slices around it.
unfoldable pub cut_at : ℕ → String → Option (String × String)
cut_at c [] = none
cut_at c (d ∷ s) =
    let rest = cut_at c s in
    if nat_beq (code d) c
    then some ("", s)
    else elim rest [ none ↦ none | some (before, after) ↦ some (d ∷ before, after) ]

-- WhiteSpace and LineTerminator
abbrev pub is_white : Char → Bool
is_white d =
    let n = code d in
    leb b'\t' n && leb n b'\r'
    || nat_beq n b' '
    || nat_beq n 0xa0
    || nat_beq n 0x1680
    || leb 0x2000 n && leb n 0x200a
    || nat_beq n 0x2028
    || nat_beq n 0x2029
    || nat_beq n 0x202f
    || nat_beq n 0x205f
    || nat_beq n 0x3000
    || nat_beq n 0xfeff

unfoldable pub trim_start : String → String
trim_start [] = ""
trim_start (d ∷ s) = if is_white d then trim_start s else d ∷ s

unfoldable pub trim_end : String → String
trim_end [] = ""
trim_end (d ∷ s) =
    let rest = trim_end s in
    elim rest [ [] ↦ if is_white d then "" else d ∷ "" | e ∷ t ↦ d ∷ e ∷ t ]

-- `s.trim()`
unfoldable pub trim : String → String
trim s = trim_end (trim_start s)

-- What `Number.parseInt(s, 10)` gives; a number is exact as far as the source's are, below 2^53.
pub data Parsed : Type 0 where
  nan : Parsed
  minus plus : ℕ → Parsed

abbrev is_digit : Char → Bool
is_digit d = leb b'0' (code d) && leb (code d) b'9'

-- The digits up to the first other character, after those that make `n`.
unfoldable pub digits_from : ℕ → String → ℕ
digits_from n [] = n
digits_from n (d ∷ s) =
    let more = digits_from (n * 10 + (code d - b'0')) s in if is_digit d then more else n

abbrev digits : (ℕ → Parsed) → String → Parsed
digits sign [] = nan
digits sign (d ∷ s) = if is_digit d then sign (digits_from 0 (d ∷ s)) else nan

abbrev signed : String → Parsed
signed [] = nan
signed (d ∷ s) =
    if nat_beq (code d) b'-'
    then digits minus s
    else if nat_beq (code d) b'+'
    then digits plus s
    else digits plus (d ∷ s)

unfoldable pub parse_int : String → Parsed
parse_int s = signed (trim_start s)

-- Numbers from here on round to Infinity.
abbrev pub infinite_from : ℕ
infinite_from = 2 ^ 1024 - 2 ^ 970

-- `s.replace(/c/g, d)`
unfoldable pub replace_all : ℕ → Char → String → String
replace_all c d [] = ""
replace_all c d (e ∷ s) = (if nat_beq (code e) c then d else e) ∷ replace_all c d s

-- A character in front of a text, unless it is a last `=`.
abbrev pub pad_or_keep : Char → String → String
pad_or_keep d [] = if nat_beq (code d) b'=' then "" else d ∷ ""
pad_or_keep d (e ∷ t) = d ∷ e ∷ t

-- `s.replace(/=+$/, "")`
unfoldable pub strip_padding : String → String
strip_padding [] = ""
strip_padding (d ∷ s) = pad_or_keep d (strip_padding s)

-- `btoa` and `atob` are the runtime's, on the bytes of a binary string; `atob` throws on a text that
-- is not base64.
module _ (btoa : List ℕ → String) where
  unfoldable pub b64encode : List ℕ → String
  b64encode bytes = strip_padding (replace_all b'/' "_" (replace_all b'+' "-" (btoa bytes)))

module _ (atob : String → Option (List ℕ)) where
  unfoldable pub b64decode : String → Option (List ℕ)
  b64decode s =
      let padded =
        replace_all b'_' "/" (replace_all b'-' "+" s) & slice "===" ((count s + 3) % 4) 3 in
      atob padded
