-- ===== src/Routes/BeadCreate/Content.antt =====
-- src/routes/bead-create-orchestrator.ts: the origins that a caller declares, the bead, and the choice of
-- the backend.
use Prim.Native.Char.{Char, code}
use Prim.Native.String.{[], ◌∷◌, slice}
use cloister.Prelude.{ℕ, ◌+◌, ◌-◌, String, ◌&&◌, Option, leb, or_else, if◌then◌else◌}
use cloister.Prelude.Keys.{◌==◌, string_eq}
use cloister.Prelude.Text.{◌&◌}
use cloister.Prelude.Chars.{trim}

abbrev pub max_declared_origins : ℕ
max_declared_origins = 64

abbrev pub max_origin_uri_length : ℕ
max_origin_uri_length = 2048

-- An item of the array `origins`.
pub data Declared : Type 0 where
  text : String → Declared
  other_value : Declared

-- `s.length`: a character beyond the first plane counts twice.
unfoldable pub utf16_length : String → ℕ
utf16_length [] = 0
utf16_length (c ∷ s) = (if leb 0x10000 (code c) then 2 else 1) + utf16_length s

abbrev letter_lower : Char → String → String
letter_lower c s =
    let n = code c in
    if leb b'A' n && leb n b'Z'
    then slice "abcdefghijklmnopqrstuvwxyz" (n - b'A') (n - b'A' + 1) & s
    else c ∷ s

-- `s.toLowerCase()`, as far as the letters that the result is compared with need it
unfoldable pub to_lower_case : String → String
to_lower_case [] = ""
to_lower_case (c ∷ s) = letter_lower c (to_lower_case s)

pub data BeadBackend : Type 0 where
  do_backend rsry_backend : BeadBackend

unfoldable pub bed_storage_backend : Option String → BeadBackend
bed_storage_backend raw =
    if to_lower_case (trim (or_else raw "")) == "rsry" then rsry_backend else do_backend
