-- ===== src/Wire/Cbor/RoundTrip.antt =====
-- Decoding what the encoder writes.
use mathlib.Core.List.{append_assoc, append-nil}
use cloister.Prelude.{
  ℕ, zero, suc, ◌+◌, ◌*◌, ◌≤◌, ◌≡◌, refl, sym, ap, subst, ◌∙◌, true, Option, none, some, List, [],
  ◌∷◌, ◌++◌, arith, length, length-append,
}
use cloister.Prelude.Keys.{nat_eq}
use cloister.Prelude.Results.{ok, ◌>>=◌}
use cloister.Wire.Cbor.{
  Value, uint, bytes, text, array, map, negative, fraction, non_finite, null, undefined,
  unsupported, Items, nil, cons, Fields, end, field, encode_text, join, items_length, encode_value,
  encode_items, encode_fields, canonical_cbor,
}
use cloister.Wire.Cbor.Decode.{
  follows, decode_value, decode_items, decode_fields, fuel_for, decode_canonical_cbor,
}
use cloister.Wire.Cbor.Canonical.{
  written, key_bytes, size, fields_size, fields_length, IsText, IsKept, IsCanonical, AllCanonical,
  HasOrderedKeys,
}
use cloister.Wire.Cbor.Entries.{take_between}
use cloister.Wire.Cbor.Shapes.{
  Decodes, Codes, ItemsCode, FieldsCode, uint_lem, bytes_lem, text_lem, array_lem, map_lem,
  cons_lem,
}

module _ (decode_text : List ℕ → List ℕ) where
  -- A canonical value is not `undefined`, so its field is written.
  encode_fields_lem :
      (k : List ℕ) (v : Value) (m : Fields)
      → IsCanonical decode_text v
      → encode_fields (field k v m) ≡ (do
        key_enc ← encode_text k
        value_enc ← encode_value v
        entries ← encode_fields m
        ok ((key_enc, value_enc) ∷ entries))
  unfolding encode_fields
  encode_fields_lem k (uint n) m h = refl
  encode_fields_lem k (bytes b) m h = refl
  encode_fields_lem k (text t) m h = refl
  encode_fields_lem k (array vs) m h = refl
  encode_fields_lem k (map f) m h = refl
  encode_fields_lem k negative m h = elim h [ ]
  encode_fields_lem k fraction m h = elim h [ ]
  encode_fields_lem k non_finite m h = elim h [ ]
  encode_fields_lem k null m h = elim h [ ]
  encode_fields_lem k undefined m h = elim h [ ]
  encode_fields_lem k unsupported m h = elim h [ ]

  abbrev pub KeyCode : List ℕ → List ℕ → Type 0
  KeyCode k enc =
      (encode_text k ≡ ok enc) × (2 ≤ 2 * length enc) × Decodes decode_text 1 (text k) enc

  pub key_lem : (k : List ℕ) → IsText decode_text k → KeyCode k (key_bytes k)
  key_lem k h =
      let (enc, wrote, bound, reads) = text_lem decode_text k h in
      let e : encode_text k ≡ ok enc = unfold encode_value in wrote in
      subst (KeyCode k) (sym (ap written e)) (e, bound, reads)

  field_lem :
      (prev : Option (List ℕ)) (k : List ℕ) (v : Value) (m : Fields)
      → follows prev (key_bytes k) ≡ true
      → IsKept decode_text k m
      → KeyCode k (key_bytes k)
      → IsCanonical decode_text v
      → Codes decode_text v
      → FieldsCode decode_text (some (key_bytes k)) m
      → FieldsCode decode_text prev (field k v m)
  unfolding join
  field_lem prev k v m after kept (wrote_key, bound_key, reads_key) h (enc, wrote, bound, reads)
        (entries, wrote_fields, ordered, counted, bound_fields, reads_fields) =
      (
        (key_bytes k, enc) ∷ entries,
        encode_fields_lem k v m h ∙ rw (wrote_key, wrote, wrote_fields),
        (after, ordered),
        omega (arith, counted),
        omega (
          arith,
          length-append (key_bytes k) (enc ++ join entries),
          length-append enc (join entries),
        ),
        step,
      )
    where
      step :
          (fuel : ℕ) (rest : List ℕ)
          → 2 + size v + fields_size m ≤ fuel
          → decode_fields decode_text fuel
              (suc (fields_length m))
              prev
              ((key_bytes k ++ (enc ++ join entries)) ++ rest)
            ≡ ok (field k v m, rest)
      step zero rest le = absurd (omega arith)
      step (suc fuel) rest le =
          let more : List ℕ = enc ++ (join entries ++ rest) in
          let a : size v ≤ fuel = omega arith in
          let b : fields_size m ≤ fuel = omega arith in
          let c : 1 ≤ fuel = omega arith in
          rw (append_assoc, append_assoc)
            (unfold decode_fields in
              rw (
                reads_key fuel more c,
                take_between (key_bytes k) more,
                after,
                reads fuel (join entries ++ rest) a,
                reads_fields fuel rest b,
                kept.0,
                kept.1,
              ))

  no_items : ItemsCode decode_text nil
  unfolding encode_items decode_items items_length
  no_items = ([], refl, omega arith, λ fuel rest le. ground arith)

  no_fields : (prev : Option (List ℕ)) → FieldsCode decode_text prev end
  unfolding encode_fields decode_fields join
  no_fields prev = ([], refl, tt, refl, omega arith, λ fuel rest le. ground arith)

  mutual
    pub value-Codes : (v : Value) → IsCanonical decode_text v → Codes decode_text v
    value-Codes (uint n) h = uint_lem decode_text n h
    value-Codes (bytes b) h = bytes_lem decode_text b h
    value-Codes (text t) h = text_lem decode_text t h
    value-Codes (array vs) h = array_lem decode_text vs h.0 (items_code vs h.1)
    value-Codes (map m) h = map_lem decode_text m h.0 (fields_code none m h.1)
    value-Codes negative h = elim h [ ]
    value-Codes fraction h = elim h [ ]
    value-Codes non_finite h = elim h [ ]
    value-Codes null h = elim h [ ]
    value-Codes undefined h = elim h [ ]
    value-Codes unsupported h = elim h [ ]

    items_code : (vs : Items) → AllCanonical decode_text vs → ItemsCode decode_text vs
    items_code nil h = no_items
    items_code (cons v vs) h = cons_lem decode_text v vs (value-Codes v h.0) (items_code vs h.1)

    pub fields_code :
        (prev : Option (List ℕ)) (m : Fields)
        → HasOrderedKeys decode_text prev m
        → FieldsCode decode_text prev m
    fields_code prev end h = no_fields prev
    fields_code prev (field k v m) (after, kept, t, c, ordered) =
        field_lem prev k v m after kept (key_lem k t) c (value-Codes v c)
          (fields_code (some (key_bytes k)) m ordered)

  -- Every canonical value with ordered keys is encoded, and the decoder gives that value back from its bytes, with the
  -- fuel that it takes from their number.
  pub decode-ordered_cbor :
      (v : Value)
      → IsCanonical decode_text v
      → (enc : List ℕ) × (canonical_cbor v ≡ ok enc)
        × (decode_canonical_cbor decode_text enc ≡ ok v)
  unfolding canonical_cbor decode_canonical_cbor
  decode-ordered_cbor v h =
      let (enc, wrote, bound, reads) = value-Codes v h in
      let read : decode_value decode_text (fuel_for enc) enc ≡ ok (v, []) =
        rw append-nil at (reads (fuel_for enc) [] (omega arith)) in
      (enc, wrote, rw read)
