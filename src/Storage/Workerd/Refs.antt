-- ===== src/Storage/Workerd/Refs.antt =====
-- src/storage/workerd.ts: the class WorkerdRefStore, names that point to digests.
use Prim.Native.Char.{Char, code}
use Prim.Native.String.{[], ◌∷◌}
use cloister.Prelude.{
  ℕ, zero, suc, length, String, Bool, true, false, not, ◌&&◌, ◌||◌, Option, none, some, List, leb,
  is_some, if◌then◌else◌,
}
use cloister.Prelude.Keys.{◌==◌, nat_eq, string_eq, option_eq}
use cloister.Prelude.Results.{Result, ok, err}
use cloister.Prelude.Text.{◌&◌}
use cloister.Table.{select, find, update, insert_or_ignore}

pub record Ref : Type 0 where
  pub name : String
  pub digest : String

abbrev pub ref_name : Ref → String
ref_name r = r.name

abbrev is_hex : Char → Bool
is_hex c = let n = code c in (leb b'0' n && leb n b'9') || (leb b'a' n && leb n b'f')

-- Exactly `n` lower-case hexadecimal digits.
unfoldable pub hex_digits : ℕ → String → Bool
hex_digits zero [] = true
hex_digits zero (c ∷ s) = false
hex_digits (suc n) [] = false
hex_digits (suc n) (c ∷ s) = is_hex c && hex_digits n s

unfoldable pub is_digest : String → Bool
unfolding hex_digits
is_digest value = hex_digits 64 value

-- The digest that a name points to.
abbrev pub digest_of : Option Ref → Option String
digest_of none = none
digest_of (some r) = some r.digest

-- What the update does to a row of the name.
abbrev pub set_digest_if : String → String → Ref → Ref
set_digest_if expected next r = if r.digest == expected then record r { digest = next } else r

-- The two statements, and whether RETURNING lists one row.
unfoldable pub compare_and_set : List Ref → String → Option String → String → List Ref × Bool
compare_and_set refs name none next = (
  insert_or_ignore ref_name (record { name = name; digest = next }) refs,
  not (is_some (find ref_name name refs)),
)
compare_and_set refs name (some expected) next = (
  update ref_name name (set_digest_if expected next) refs,
  length (select (λ r. r.name == name && r.digest == expected) refs) == 1,
)

-- The error is the message of the TypeError.
unfoldable pub cas : List Ref → String → Option String → String → Result String (List Ref × Bool)
unfolding compare_and_set is_digest
cas refs name expected next =
    if is_digest next
    then ok (compare_and_set refs name expected next)
    else err ("refStore.cas: 'next' is not a valid digest: " & next)
