-- ===== src/Wire/Origin.antt =====
-- src/wire/origin.ts: sets of content origins, their union, and the confidence that they support.
pub mod Union
mod Tests
use Prim.Native.Nat.{Ordering}
use Prim.Native.String.{compare}
use text.Mathlib.Text.{is_le}
use cloister.Prelude.{
  ℕ, String, Bool, true, false, not, ◌&&◌, Option, none, some, List, [], ◌∷◌, if◌then◌else◌,
}
use cloister.Prelude.Keys.{◌==◌, string_eq}
use cloister.Prelude.Text.{◌&◌}
use cloister.Prelude.Sort.{sort}
use cloister.Table.{upsert}

pub record OriginEntry : Type 0 where
  pub uri : String
  pub vouched_by : String

abbrev pub OriginSet : Type 0
OriginSet = List OriginEntry

abbrev pub cloister_authority : String
cloister_authority = "cloister/lease-gate"

pub data Confidence : Type 0 where
  origin_attested origin_asserted origin_unknown : Confidence

abbrev pub fetched_origin : String → OriginEntry
fetched_origin url = record { uri = url; vouched_by = cloister_authority }

abbrev pub declared_origin : String → String → OriginEntry
declared_origin uri declaring_peer_fp = record {
  uri = uri;
  vouched_by = "interlace:peer/" & declaring_peer_fp;
}

abbrev pub unvouched_origin : String → OriginEntry
unvouched_origin uri = record { uri = uri; vouched_by = "" }

-- The key of an entry in the map: the two texts with U+0000 between them.
abbrev pub origin_key : OriginEntry → String
origin_key entry = entry.uri & ("\0" & entry.vouched_by)

-- The comparison gives at most 0. Texts are compared by code points, which is the source's order by
-- UTF-16 units but where one text has a surrogate pair.
abbrev pub origin_le : OriginEntry → OriginEntry → Bool
origin_le a b = elim (compare a.uri b.uri) [
  | Ordering.lt ↦ true
  | Ordering.gt ↦ false
  | Ordering.eq ↦ is_le (compare a.vouched_by b.vouched_by)
]

-- `seen.set(key, entry)` for each entry: a key that is there keeps its place.
unfoldable pub collect : OriginSet → OriginSet → OriginSet
collect seen [] = seen
collect seen (entry ∷ set) = collect (upsert origin_key entry seen) set

unfoldable pub collect_all : OriginSet → List OriginSet → OriginSet
unfolding collect
collect_all seen [] = seen
collect_all seen (set ∷ sets) = collect_all (collect seen set) sets

unfoldable pub union_origins : List OriginSet → OriginSet
unfolding collect_all
union_origins sets = sort origin_le (collect_all [] sets)

-- `origins.every(p)`
unfoldable pub every : (OriginEntry → Bool) → OriginSet → Bool
every p [] = true
every p (entry ∷ set) = p entry && every p set

-- The set of trusted authorities is its membership test.
abbrev pub is_vouched : (String → Bool) → OriginEntry → Bool
is_vouched trusted entry = not (entry.vouched_by == "") && trusted entry.vouched_by

unfoldable pub derive_confidence : OriginSet → (String → Bool) → Confidence
derive_confidence [] trusted = origin_unknown
derive_confidence (entry ∷ set) trusted =
    if every (is_vouched trusted) (entry ∷ set) then origin_attested else origin_asserted

unfoldable pub may_attest_fully : Confidence → Bool
may_attest_fully origin_attested = true
may_attest_fully origin_asserted = false
may_attest_fully origin_unknown = false

-- `json_string` is `JSON.stringify` of a text.
module _ (json_string : String → String) where
  abbrev json_entry : OriginEntry → String
  json_entry entry =
      "{\"uri\":" & json_string entry.uri & ",\"vouchedBy\":" & json_string entry.vouched_by & "}"

  unfoldable pub json_entries : OriginSet → String
  json_entries [] = ""
  json_entries (entry ∷ []) = json_entry entry
  json_entries (entry ∷ next ∷ set) = json_entry entry & "," & json_entries (next ∷ set)

  unfoldable pub serialize_origins : OriginSet → String
  unfolding json_entries
  serialize_origins origins = "[" & json_entries origins & "]"

  -- `sha256` is of a text's UTF-8 form.
  unfoldable pub origins_digest : (String → List ℕ) → OriginSet → Option (List ℕ)
  origins_digest sha256 [] = none
  origins_digest sha256 (entry ∷ set) = some (sha256 (serialize_origins (entry ∷ set)))

-- An item of a stored array: an object with both texts, or anything else.
pub data StoredItem : Type 0 where
  both_texts : (uri vouched_by : String) → StoredItem
  other_item : StoredItem

-- What `JSON.parse` makes of a stored column.
pub data Stored : Type 0 where
  malformed not_array : Stored
  array : List StoredItem → Stored

abbrev pub entries_of : List StoredItem → OriginSet
entries_of [] = []
entries_of (both_texts uri vouched_by ∷ items) =
    record { uri = uri; vouched_by = vouched_by } ∷ entries_of items
entries_of (other_item ∷ items) = entries_of items

abbrev pub stored_origins : Stored → OriginSet
stored_origins malformed = []
stored_origins not_array = []
stored_origins (array items) = union_origins (entries_of items ∷ [])

unfoldable pub parse_origins : (String → Stored) → Option String → OriginSet
parse_origins json_parse none = []
parse_origins json_parse (some raw) = if raw == "" then [] else stored_origins (json_parse raw)
