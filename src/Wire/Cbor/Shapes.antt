-- ===== src/Wire/Cbor/Shapes.antt =====
-- The round trip of each shape of value, from those of its parts.
use mathlib.Core.List.{append_assoc}
use cloister.Prelude.{
  ℕ, zero, suc, ◌+◌, ◌*◌, ◌/◌, ◌≤◌, ◌≡◌, Option, none, List, ◌∷◌, ◌++◌, arith, length,
  length-append,
}
use cloister.Prelude.Keys.{nat_eq}
use cloister.Prelude.Results.{ok}
use cloister.Wire.Cbor.{
  Value, uint, bytes, text, array, map, Items, cons, Fields, Entry, encode_bytes, encode_text, join,
  items_length, write_map, encode_value, encode_items, encode_fields,
}
use cloister.Wire.Cbor.Decode.{read_argument, decode_value, decode_items, decode_fields}
use cloister.Wire.Cbor.Head.{IsArgument, head_lem}
use cloister.Wire.Cbor.Canonical.{fields_length, size, items_size, fields_size, IsText}
use cloister.Wire.Cbor.Entries.{IsOrdered, sort-ordered, ordered-has_duplicate, read_bytes_lem}

module _ (decode_text : List ℕ → List ℕ) where
  abbrev pub Decodes : ℕ → Value → List ℕ → Type 0
  Decodes n v enc =
      (fuel : ℕ) (rest : List ℕ)
      → n ≤ fuel
      → decode_value decode_text fuel (enc ++ rest) ≡ ok (v, rest)

  -- A value's bytes, and that enough fuel reads it back from them.
  abbrev pub Codes : Value → Type 0
  Codes v =
      (enc : List ℕ) × (encode_value v ≡ ok enc)
      × (size v + 1 ≤ 2 * length enc)
      × Decodes (size v) v enc

  abbrev pub ItemsCode : Items → Type 0
  ItemsCode vs =
      (parts : List ℕ) × (encode_items vs ≡ ok parts)
      × (items_size vs ≤ 2 * length parts)
      × ((fuel : ℕ) (rest : List ℕ)
          → items_size vs ≤ fuel
          → decode_items decode_text fuel (items_length vs) (parts ++ rest) ≡ ok (vs, rest))

  abbrev pub FieldsCode : Option (List ℕ) → Fields → Type 0
  FieldsCode prev m =
      (entries : List Entry) × (encode_fields m ≡ ok entries)
      × IsOrdered prev entries
      × (length entries ≡ fields_length m)
      × (fields_size m ≤ 2 * length (join entries))
      × ((fuel : ℕ) (rest : List ℕ)
          → fields_size m ≤ fuel
          → decode_fields decode_text fuel (fields_length m) prev (join entries ++ rest)
            ≡ ok (m, rest))

  pub uint_lem : (n : ℕ) → IsArgument n → Codes (uint n)
  unfolding encode_value
  uint_lem n h =
      let (b, t, wrote, major, reads) = head_lem 0 n (omega arith) h in
      (b ∷ t, wrote, omega arith, step b t major reads)
    where
      step :
          (b : ℕ) (t : List ℕ)
          → b / 32 ≡ 0
          → ((rest : List ℕ) → read_argument b (t ++ rest) ≡ ok (n, rest))
          → Decodes 1 (uint n) (b ∷ t)
      step b t major reads zero rest le = absurd (omega arith)
      step b t major reads (suc fuel) rest le = unfold decode_value in rw (major, reads)

  pub bytes_lem : (v : List ℕ) → IsArgument (length v) → Codes (bytes v)
  unfolding encode_value encode_bytes
  bytes_lem v h =
      let (b, t, wrote, major, reads) = head_lem 2 (length v) (omega arith) h in
      (b ∷ (t ++ v), rw wrote, omega arith, step b t major reads)
    where
      step :
          (b : ℕ) (t : List ℕ)
          → b / 32 ≡ 2
          → ((rest : List ℕ) → read_argument b (t ++ rest) ≡ ok (length v, rest))
          → Decodes 1 (bytes v) (b ∷ (t ++ v))
      step b t major reads zero rest le = absurd (omega arith)
      step b t major reads (suc fuel) rest le =
          rw append_assoc (unfold decode_value in rw (major, reads, read_bytes_lem))

  pub text_lem : (v : List ℕ) → IsText decode_text v → Codes (text v)
  unfolding encode_value encode_text
  text_lem v h =
      let (b, t, wrote, major, reads) = head_lem 3 (length v) (omega arith) h.0 in
      (b ∷ (t ++ v), rw wrote, omega arith, step b t major reads)
    where
      step :
          (b : ℕ) (t : List ℕ)
          → b / 32 ≡ 3
          → ((rest : List ℕ) → read_argument b (t ++ rest) ≡ ok (length v, rest))
          → Decodes 1 (text v) (b ∷ (t ++ v))
      step b t major reads zero rest le = absurd (omega arith)
      step b t major reads (suc fuel) rest le =
          rw append_assoc (unfold decode_value in rw (major, reads, read_bytes_lem, h.1))

  pub array_lem : (vs : Items) → IsArgument (items_length vs) → ItemsCode vs → Codes (array vs)
  unfolding encode_value
  array_lem vs h (parts, wrote_items, bound, reads_items) =
      let (b, t, wrote, major, reads) = head_lem 4 (items_length vs) (omega arith) h in
      (
        b ∷ (t ++ parts),
        rw (wrote, wrote_items),
        omega (arith, length-append t parts),
        step b t major reads,
      )
    where
      step :
          (b : ℕ) (t : List ℕ)
          → b / 32 ≡ 4
          → ((rest : List ℕ) → read_argument b (t ++ rest) ≡ ok (items_length vs, rest))
          → Decodes (1 + items_size vs) (array vs) (b ∷ (t ++ parts))
      step b t major reads zero rest le = absurd (omega arith)
      step b t major reads (suc fuel) rest le =
          let enough : items_size vs ≤ fuel = omega arith in
          rw append_assoc (unfold decode_value in rw (major, reads, reads_items fuel rest enough))

  pub map_lem : (m : Fields) → IsArgument (fields_length m) → FieldsCode none m → Codes (map m)
  unfolding encode_value write_map
  map_lem m h (entries, wrote_fields, ordered, counted, bound, reads_fields) =
      let (b, t, wrote, major, reads) = head_lem 5 (fields_length m) (omega arith) h in
      (
        b ∷ (t ++ join entries),
        rw (
          wrote_fields,
          sort-ordered none entries ordered,
          ordered-has_duplicate none entries ordered,
          counted,
          wrote,
        ),
        omega (arith, length-append t (join entries)),
        step b t major reads,
      )
    where
      step :
          (b : ℕ) (t : List ℕ)
          → b / 32 ≡ 5
          → ((rest : List ℕ) → read_argument b (t ++ rest) ≡ ok (fields_length m, rest))
          → Decodes (1 + fields_size m) (map m) (b ∷ (t ++ join entries))
      step b t major reads zero rest le = absurd (omega arith)
      step b t major reads (suc fuel) rest le =
          let enough : fields_size m ≤ fuel = omega arith in
          rw append_assoc (unfold decode_value in rw (major, reads, reads_fields fuel rest enough))

  pub cons_lem : (v : Value) (vs : Items) → Codes v → ItemsCode vs → ItemsCode (cons v vs)
  unfolding encode_items items_length
  cons_lem v vs (enc, wrote, bound, reads) (parts, wrote_items, bound_items, reads_items) =
      (enc ++ parts, rw (wrote, wrote_items), omega (arith, length-append enc parts), step)
    where
      step :
          (fuel : ℕ) (rest : List ℕ)
          → 1 + size v + items_size vs ≤ fuel
          → decode_items decode_text fuel (suc (items_length vs)) ((enc ++ parts) ++ rest)
            ≡ ok (cons v vs, rest)
      step zero rest le = absurd (omega arith)
      step (suc fuel) rest le =
          let a : size v ≤ fuel = omega arith in
          let b : items_size vs ≤ fuel = omega arith in
          rw append_assoc
            (unfold decode_items in rw (reads fuel (parts ++ rest) a, reads_items fuel rest b))
