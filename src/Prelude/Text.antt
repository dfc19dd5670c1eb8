-- ===== src/Prelude/Text.antt =====
-- Texts as the standard library of the source prints them: decimal numbers and hexadecimal bytes.
use Prim.Native.Nat.{ℕ, zero, suc, ◌+◌, ◌/◌, ◌%◌}
use Prim.Native.String.{String, slice}
use mathlib.Core.List.{List, [], ◌∷◌}
use package.cloister.Prelude.Tests.{ltb, if◌then◌else◌}

infixl 65 ◌&◌
abbrev pub ◌&◌ : String → String → String
s & t = Prim.Native.String.◌++◌ s t

-- One digit of a number below 16.
abbrev pub digit : ℕ → String
digit d = slice "0123456789abcdef" d (d + 1)

-- `b.toString(16).padStart(2, "0")` joined over the bytes
unfoldable pub hex : List ℕ → String
hex [] = ""
hex (b ∷ bytes) = digit (b / 16) & digit (b % 16) & hex bytes

unfoldable pub decimal_from : ℕ → ℕ → String
decimal_from zero n = ""
decimal_from (suc fuel) n =
    let more = decimal_from fuel (n / 10) & digit (n % 10) in if ltb n 10 then digit n else more

-- `${n}`: a number has fewer digits than `n + 1`
unfoldable pub decimal : ℕ → String
unfolding decimal_from
decimal n = decimal_from (n + 1) n
