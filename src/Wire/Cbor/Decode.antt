-- ===== src/Wire/Cbor/Decode.antt =====
-- src/wire/receipts-cbor.ts: the strict decoder. The cursor is the bytes that are left.
use Prim.Native.Nat.{Ordering}
use cloister.Prelude.{
  ℕ, zero, suc, ◌+◌, ◌-◌, ◌*◌, ◌/◌, ◌%◌, ◌^◌, Bool, true, false, ◌||◌, Option, none, some, List, [],
  ◌∷◌, ltb, leb, length, take, drop, if◌then◌else◌,
}
use cloister.Prelude.Keys.{◌==◌, nat_eq, list_eq}
use cloister.Prelude.Results.{ok, err, ◌>>=◌, ◌>>◌, guard}
use cloister.Wire.Cbor.{
  Value, uint, bytes, text, array, map, Items, nil, cons, Fields, end, field, end_of_input,
  short_read, non_canonical_length, forbidden_info, trailing_bytes, negative_integer, non_text_key,
  unsorted_keys, tagged, simple_or_float, out_of_fuel, Coded, compare_bytes,
}

unfoldable pub read_byte : List ℕ → Coded (ℕ × List ℕ)
read_byte [] = err end_of_input
read_byte (b ∷ rest) = ok (b, rest)

unfoldable pub read_bytes : ℕ → List ℕ → Coded (List ℕ × List ℕ)
read_bytes n c = if ltb (length c) n then err short_read else ok (take n c, drop n c)

-- `v < 65536` for the 32-bit result of `|`, which is negative from 2 ^ 31 on.
abbrev pub below_65536_int32 : ℕ → Bool
below_65536_int32 u = leb (2 ^ 31) u || ltb u 65536

unfoldable pub read_argument : ℕ → List ℕ → Coded (ℕ × List ℕ)
unfolding read_byte
read_argument initial c =
    let info = initial % 32 in
    if ltb info 24
    then ok (info, c)
    else if info == 24
    then (do (v, c1) ← read_byte c; guard (leb 24 v) non_canonical_length; ok (v, c1))
    else if info == 25
    then (do
      (hi, c1) ← read_byte c
      (lo, c2) ← read_byte c1
      let v = hi * 2 ^ 8 + lo
      guard (leb 256 v) non_canonical_length
      ok (v, c2))
    else if info == 26
    then (do
      (b3, c1) ← read_byte c
      (b2, c2) ← read_byte c1
      (b1, c3) ← read_byte c2
      (b0, c4) ← read_byte c3
      let v = b3 * 2 ^ 24 + b2 * 2 ^ 16 + b1 * 2 ^ 8 + b0
      guard (if below_65536_int32 v then false else true) non_canonical_length
      ok (v, c4))
    else if info == 27
    then (do
      (b7, c1) ← read_byte c
      (b6, c2) ← read_byte c1
      (b5, c3) ← read_byte c2
      (b4, c4) ← read_byte c3
      (b3, c5) ← read_byte c4
      (b2, c6) ← read_byte c5
      (b1, c7) ← read_byte c6
      (b0, c8) ← read_byte c7
      let v =
          b7 * 2 ^ 56
          + b6 * 2 ^ 48
          + b5 * 2 ^ 40
          + b4 * 2 ^ 32
          + b3 * 2 ^ 24
          + b2 * 2 ^ 16
          + b1 * 2 ^ 8
          + b0
      guard (leb 0x100000000 v) non_canonical_length
      ok (v, c8))
    else err forbidden_info

-- The keys come in the order of their encoded bytes, each after the one before it.
abbrev pub follows : Option (List ℕ) → List ℕ → Bool
follows none key_bytes = true
follows (some prev) key_bytes = elim (compare_bytes prev key_bytes) [
  | Ordering.lt ↦ true
  | _ ↦ false
]

-- A decoded key must be a text.
abbrev pub as_text : Value → Coded (List ℕ)
as_text (text k) = ok k
as_text _ = err non_text_key

-- "__proto__"
abbrev pub proto_key : List ℕ
proto_key = 95 ∷ 95 ∷ 112 ∷ 114 ∷ 111 ∷ 116 ∷ 111 ∷ 95 ∷ 95 ∷ []

abbrev pub has_key : List ℕ → Fields → Bool
has_key k end = false
has_key k (field k' v m) = k == k' || has_key k m

-- `out[key] = value` on a plain object, ahead of the assignments that come after it: the one for
-- "__proto__" makes no property of its own, and a later one for the same key replaces the value.
abbrev pub assign : List ℕ → Value → Fields → Fields
assign k v m = if k == proto_key || has_key k m then m else field k v m

-- The fuel that the decoder is given: two rounds for each byte, and one.
abbrev pub fuel_for : List ℕ → ℕ
fuel_for c = 2 * length c + 1

-- `decode_text` is `TextDecoder` followed by `TextEncoder`.
module _ (decode_text : List ℕ → List ℕ) where
  unfoldable mutual
    -- One round of fuel for each value and each round of a loop.
    pub decode_value : ℕ → List ℕ → Coded (Value × List ℕ)
    decode_value zero c = err out_of_fuel
    decode_value (suc fuel) [] = err end_of_input
    decode_value (suc fuel) (initial ∷ c) =
        let major = initial / 32 in
        let items = (do
          (n, c1) ← read_argument initial c
          (vs, c2) ← decode_items fuel n c1
          ok (array vs, c2)) in
        let fields = (do
          (n, c1) ← read_argument initial c
          (m, c2) ← decode_fields fuel n none c1
          ok (map m, c2)) in
        if major == 0
        then (do (n, c1) ← read_argument initial c; ok (uint n, c1))
        else if major == 1
        then err negative_integer
        else if major == 2
        then (do (n, c1) ← read_argument initial c; (v, c2) ← read_bytes n c1; ok (bytes v, c2))
        else if major == 3
        then (do
          (n, c1) ← read_argument initial c
          (v, c2) ← read_bytes n c1
          ok (text (decode_text v), c2))
        else if major == 4
        then items
        else if major == 5
        then fields
        else if major == 6
        then err tagged
        else err simple_or_float

    pub decode_items : ℕ → ℕ → List ℕ → Coded (Items × List ℕ)
    decode_items fuel zero c = ok (nil, c)
    decode_items zero (suc n) c = err out_of_fuel
    decode_items (suc fuel) (suc n) c = do
      (v, c1) ← decode_value fuel c
      (vs, c2) ← decode_items fuel n c1
      ok (cons v vs, c2)

    pub decode_fields : ℕ → ℕ → Option (List ℕ) → List ℕ → Coded (Fields × List ℕ)
    decode_fields fuel zero prev c = ok (end, c)
    decode_fields zero (suc n) prev c = err out_of_fuel
    decode_fields (suc fuel) (suc n) prev c = do
      (key, c1) ← decode_value fuel c
      k ← as_text key
      let key_bytes = take (length c - length c1) c
      guard (follows prev key_bytes) unsorted_keys
      (v, c2) ← decode_value fuel c1
      (m, c3) ← decode_fields fuel n (some key_bytes) c2
      ok (assign k v m, c3)

  unfoldable pub decode_canonical_cbor : List ℕ → Coded Value
  unfolding decode_value read_argument read_bytes
  decode_canonical_cbor c = do
    (v, rest) ← decode_value (fuel_for c) c
    guard (length rest == 0) trailing_bytes
    ok v
