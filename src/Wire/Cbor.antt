-- ===== src/Wire/Cbor.antt =====
-- src/wire/receipts-cbor.ts: canonical CBOR of receipts. This file has the values and the encoder.
-- A text is held as the bytes that `TextEncoder` gives for it. The two number types of the source
-- share one constructor for the integers that the encoder accepts, and one for each kind it refuses.
pub mod Decode
pub mod Head
pub mod Canonical
pub mod Entries
pub mod Shapes
pub mod RoundTrip
pub mod Sorted
pub mod SortedKeys
pub mod AnyOrder
pub mod Steps
pub mod Fuel
use Prim.Native.Nat.{compare, Ordering}
use cloister.Prelude.{
  ℕ, zero, suc, ◌+◌, ◌-◌, ◌*◌, ◌/◌, ◌%◌, ◌^◌, Bool, true, false, List, [], ◌∷◌, ◌++◌, ltb, leb,
  length, if◌then◌else◌,
}
use cloister.Prelude.Results.{Result, ok, err, ◌>>=◌, ◌>>◌, guard}
use cloister.Prelude.Sort.{sort}

mutual
  pub data Value : Type 0 where
    uint : ℕ → Value
    negative fraction non_finite : Value
    bytes : List ℕ → Value
    text : List ℕ → Value
    array : Items → Value
    map : Fields → Value
    null undefined unsupported : Value

  pub data Items : Type 0 where
    nil : Items
    cons : Value → Items → Items

  pub data Fields : Type 0 where
    end : Fields
    field : List ℕ → Value → Fields → Fields

-- The messages of CanonicalCborError, and `out_of_fuel` of the model's decoder.
pub data CborError : Type 0 where
  non_finite_number non_integer_number negative_uint exceeds_u64 null_value : CborError
  unsupported_type duplicate_key : CborError
  end_of_input short_read non_canonical_length forbidden_info trailing_bytes : CborError
  negative_integer non_text_key unsorted_keys tagged simple_or_float out_of_fuel : CborError

abbrev pub Coded : Type 0 → Type 0
Coded A = Result CborError A

-- The bytes of a CBOR head, shortest form first.
unfoldable pub write_head : ℕ → ℕ → Coded (List ℕ)
write_head major value =
    let tag = major % 8 * 32 in
    if ltb value 24
    then ok ((tag + value) ∷ [])
    else if ltb value 0x100
    then ok ((tag + 24) ∷ value ∷ [])
    else if ltb value 0x10000
    then ok ((tag + 25) ∷ value / 2 ^ 8 % 256 ∷ value % 256 ∷ [])
    else if ltb value 0x100000000
    then ok (
        (tag + 26)
        ∷ value / 2 ^ 24 % 256
        ∷ value / 2 ^ 16 % 256
        ∷ value / 2 ^ 8 % 256
        ∷ value % 256
        ∷ [])
    else if ltb value 0x10000000000000000
    then ok (
        (tag + 27)
        ∷ value / 2 ^ 56 % 256
        ∷ value / 2 ^ 48 % 256
        ∷ value / 2 ^ 40 % 256
        ∷ value / 2 ^ 32 % 256
        ∷ value / 2 ^ 24 % 256
        ∷ value / 2 ^ 16 % 256
        ∷ value / 2 ^ 8 % 256
        ∷ value % 256
        ∷ [])
    else err exceeds_u64

unfoldable pub encode_bytes : List ℕ → Coded (List ℕ)
encode_bytes v = do head ← write_head 2 (length v); ok (head ++ v)

unfoldable pub encode_text : List ℕ → Coded (List ℕ)
encode_text v = do head ← write_head 3 (length v); ok (head ++ v)

-- The sign of `compareBytes`.
unfoldable pub compare_bytes : List ℕ → List ℕ → Ordering
compare_bytes [] [] = Ordering.eq
compare_bytes [] (b ∷ bs) = Ordering.lt
compare_bytes (a ∷ as') [] = Ordering.gt
compare_bytes (a ∷ as') (b ∷ bs) =
    let rest = compare_bytes as' bs in
    elim (compare a b) [
      | Ordering.lt ↦ Ordering.lt
      | Ordering.eq ↦ rest
      | Ordering.gt ↦ Ordering.gt
    ]

-- An encoded key with its encoded value.
abbrev pub Entry : Type 0
Entry = List ℕ × List ℕ

unfoldable pub entry_le : Entry → Entry → Bool
unfolding compare_bytes
entry_le a b = elim (compare_bytes a.0 b.0) [ Ordering.gt ↦ false | _ ↦ true ]

-- The loop over neighbours after the sort.
unfoldable pub has_duplicate : List Entry → Bool
unfolding compare_bytes
has_duplicate [] = false
has_duplicate (a ∷ []) = false
has_duplicate (a ∷ b ∷ rest) = elim (compare_bytes a.0 b.0) [
  | Ordering.eq ↦ true
  | _ ↦ has_duplicate (b ∷ rest)
]

unfoldable pub join : List Entry → List ℕ
join [] = []
join (e ∷ entries) = e.0 ++ (e.1 ++ join entries)

unfoldable pub items_length : Items → ℕ
items_length nil = 0
items_length (cons v vs) = suc (items_length vs)

-- Sort, refuse duplicates, and write the head and the entries.
unfoldable pub write_map : List Entry → Coded (List ℕ)
unfolding has_duplicate join entry_le
write_map entries = do
  let sorted = sort entry_le entries
  guard (if has_duplicate sorted then false else true) duplicate_key
  head ← write_head 5 (length sorted)
  ok (head ++ join sorted)

unfoldable mutual
  pub encode_value : Value → Coded (List ℕ)
  encode_value (uint n) = write_head 0 n
  encode_value negative = err negative_uint
  encode_value fraction = err non_integer_number
  encode_value non_finite = err non_finite_number
  encode_value (bytes v) = encode_bytes v
  encode_value (text v) = encode_text v
  encode_value (array vs) = do
    head ← write_head 4 (items_length vs)
    parts ← encode_items vs
    ok (head ++ parts)
  encode_value (map m) = do entries ← encode_fields m; write_map entries
  encode_value null = err null_value
  encode_value undefined = err null_value
  encode_value unsupported = err unsupported_type

  pub encode_items : Items → Coded (List ℕ)
  encode_items nil = ok []
  encode_items (cons v vs) = do enc ← encode_value v; parts ← encode_items vs; ok (enc ++ parts)

  -- `undefined` values are skipped.
  pub encode_fields : Fields → Coded (List Entry)
  encode_fields end = ok []
  encode_fields (field k undefined m) = encode_fields m
  encode_fields (field k v m) = do
    key_enc ← encode_text k
    value_enc ← encode_value v
    entries ← encode_fields m
    ok ((key_enc, value_enc) ∷ entries)

unfoldable pub canonical_cbor : Value → Coded (List ℕ)
unfolding encode_value encode_bytes encode_text write_map write_head items_length
canonical_cbor value = encode_value value
