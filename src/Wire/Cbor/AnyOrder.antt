-- ===== src/Wire/Cbor/AnyOrder.antt =====
-- Encoding maps whose fields come in any order.
use cloister.Prelude.{
  ℕ, ◌≡◌, refl, sym, subst, ◌∙◌, inl, inr, Bool, Option, none, some, List, [], ◌∷◌, Bool-cases,
  if◌then◌else◌,
}
use cloister.Prelude.Keys.{nat_eq, list_eq}
use cloister.Prelude.Results.{ok, ok-injective}
use cloister.Prelude.Sort.{insert, sort}
use cloister.Wire.Cbor.{
  Value, uint, bytes, text, array, map, negative, fraction, non_finite, null, undefined,
  unsupported, Items, nil, cons, Fields, end, field, Entry, entry_le, encode_text, encode_value,
  encode_items, encode_fields, canonical_cbor, write_map,
}
use cloister.Wire.Cbor.Decode.{decode_canonical_cbor}
use cloister.Wire.Cbor.Canonical.{
  key_bytes, IsText, IsCanonical, HasOrderedKeys, IsEncodable, AllEncodable, HasEncodableFields,
}
use cloister.Wire.Cbor.RoundTrip.{key_lem, value-Codes, fields_code, decode-ordered_cbor}
use cloister.Wire.Cbor.Entries.{IsOrdered, sort-ordered}
use cloister.Wire.Cbor.Sorted.{
  comes_first, insert_field, sorted_value, sorted_items, sorted_fields, items_length-sorted_items,
}
use cloister.Wire.Cbor.SortedKeys.{sorted-IsCanonical, sorted_fields-HasOrderedKeys}

module _ (decode_text : List ℕ → List ℕ) where
  -- The entry of a field stands in front of those of the fields after it.
  encode_fields-field :
      (k : List ℕ) (v : Value) (m : Fields) (key_enc value_enc : List ℕ) (entries : List Entry)
      → encode_text k ≡ ok key_enc
      → encode_value v ≡ ok value_enc
      → encode_fields m ≡ ok entries
      → encode_fields (field k v m) ≡ ok ((key_enc, value_enc) ∷ entries)
  unfolding encode_fields
  encode_fields-field k (uint n) m key_enc value_enc entries a b c = rw (a, b, c) refl
  encode_fields-field k (bytes w) m key_enc value_enc entries a b c = rw (a, b, c) refl
  encode_fields-field k (text t) m key_enc value_enc entries a b c = rw (a, b, c) refl
  encode_fields-field k (array vs) m key_enc value_enc entries a b c = rw (a, b, c) refl
  encode_fields-field k (map f) m key_enc value_enc entries a b c = rw (a, b, c) refl
  encode_fields-field k negative m key_enc value_enc entries a b c = cc
  encode_fields-field k fraction m key_enc value_enc entries a b c = cc
  encode_fields-field k non_finite m key_enc value_enc entries a b c = cc
  encode_fields-field k null m key_enc value_enc entries a b c = cc
  encode_fields-field k undefined m key_enc value_enc entries a b c = cc
  encode_fields-field k unsupported m key_enc value_enc entries a b c = cc

  -- Fields that are encoded, and to what.
  abbrev Encodes : Fields → List Entry → Type 0
  Encodes m entries = encode_fields m ≡ ok entries

  -- The field and its entry take the same place, by whether the field comes first.
  abbrev Placed :
      Bool → List ℕ → Value → Entry → List ℕ → Value → Entry → Fields → List Entry → Type 0
  Placed first k v e k' v' e' m entries =
      Encodes (if first then field k v (field k' v' m) else field k' v' (insert_field k v m))
        (if first then e ∷ e' ∷ entries else e' ∷ insert entry_le e entries)

  insert_field-Encodes :
      (prev : Option (List ℕ)) (k : List ℕ) (v : Value) (value_enc : List ℕ) (m : Fields)
      → encode_text k ≡ ok (key_bytes k)
      → encode_value v ≡ ok value_enc
      → HasOrderedKeys decode_text prev m
      → (entries : List Entry) × Encodes m entries
        × Encodes (insert_field k v m) (insert entry_le (key_bytes k, value_enc) entries)
  unfolding insert_field insert entry_le
  insert_field-Encodes prev k v value_enc end a b ordered = (
    [],
    unfold encode_fields in refl,
    encode_fields-field k v end (key_bytes k) value_enc [] a b (unfold encode_fields in refl),
  )
  insert_field-Encodes prev k v value_enc (field k' v' m) a b (_, _, t', c', ordered) =
      let (value_enc', b', _, _) = value-Codes decode_text v' c' in
      let a' = (key_lem decode_text k' t').0 in
      let (entries, below, inserted) =
        insert_field-Encodes (some (key_bytes k')) k v value_enc m a b ordered in
      let here : Encodes (field k' v' m) ((key_bytes k', value_enc') ∷ entries) =
        encode_fields-field k' v' m (key_bytes k') value_enc' entries a' b' below in
      (
        (key_bytes k', value_enc') ∷ entries,
        here,
        elim (Bool-cases (comes_first k k')) [
          | inl e ↦
              subst
                (λ b.
                  Placed b k v (key_bytes k, value_enc) k' v' (key_bytes k', value_enc') m entries)
                (sym e)
                (encode_fields-field k v (field k' v' m) (key_bytes k) value_enc
                  ((key_bytes k', value_enc') ∷ entries) a b here)
          | inr e ↦
              subst
                (λ b.
                  Placed b k v (key_bytes k, value_enc) k' v' (key_bytes k', value_enc') m entries)
                (sym e)
                (encode_fields-field k' v' (insert_field k v m) (key_bytes k') value_enc'
                  (insert entry_le (key_bytes k, value_enc) entries) a' b' inserted)
        ],
      )

  write_map-sort :
      (entries : List Entry)
      → IsOrdered none (sort entry_le entries)
      → write_map (sort entry_le entries) ≡ write_map entries
  unfolding write_map
  write_map-sort entries ordered = rw (sort-ordered none (sort entry_le entries) ordered) refl

  map-sorted :
      (m : Fields)
      → HasOrderedKeys decode_text none (sorted_fields m)
      → (entries : List Entry) × Encodes m entries
        × Encodes (sorted_fields m) (sort entry_le entries)
      → encode_value (map (sorted_fields m)) ≡ encode_value (map m)
  unfolding encode_value
  map-sorted m keys (entries, wrote, sorted) =
      let (entries', wrote', ordered, _, _, _) =
        fields_code decode_text none (sorted_fields m) keys in
      let same : entries' ≡ sort entry_le entries = ok-injective (sym wrote' ∙ sorted) in
      rw (sorted, wrote) (write_map-sort entries (subst (IsOrdered none) same ordered))

  field-sorted :
      (k : List ℕ) (v : Value) (m : Fields)
      → IsText decode_text k
      → IsCanonical decode_text (sorted_value v)
      → encode_value (sorted_value v) ≡ encode_value v
      → HasOrderedKeys decode_text none (sorted_fields m)
      → (entries : List Entry) × Encodes m entries
        × Encodes (sorted_fields m) (sort entry_le entries)
      → (entries : List Entry) × Encodes (field k v m) entries
        × Encodes (sorted_fields (field k v m)) (sort entry_le entries)
  unfolding sorted_fields sort
  field-sorted k v m t c same keys (entries, wrote, sorted) =
      let (value_enc, wrote_value, _, _) = value-Codes decode_text (sorted_value v) c in
      let wrote_key = (key_lem decode_text k t).0 in
      let (entries', below, inserted) =
        insert_field-Encodes none k (sorted_value v) value_enc (sorted_fields m) wrote_key
          wrote_value keys in
      (
        (key_bytes k, value_enc) ∷ entries,
        encode_fields-field k v m (key_bytes k) value_enc entries wrote_key (sym same ∙ wrote_value)
            wrote,
        subst
            (λ es.
              Encodes (insert_field k (sorted_value v) (sorted_fields m))
                (insert entry_le (key_bytes k, value_enc) es))
            (ok-injective (sym below ∙ sorted)) inserted,
      )

  array-sorted :
      (vs : Items)
      → encode_items (sorted_items vs) ≡ encode_items vs
      → encode_value (array (sorted_items vs)) ≡ encode_value (array vs)
  unfolding encode_value
  array-sorted vs same = rw (items_length-sorted_items, same) refl

  cons-sorted :
      (v : Value) (vs : Items)
      → encode_value (sorted_value v) ≡ encode_value v
      → encode_items (sorted_items vs) ≡ encode_items vs
      → encode_items (sorted_items (cons v vs)) ≡ encode_items (cons v vs)
  unfolding encode_items sorted_items
  cons-sorted v vs same same_items = rw (same, same_items) refl

  no_fields_sorted :
      (entries : List Entry) × Encodes end entries
      × Encodes (sorted_fields end) (sort entry_le entries)
  unfolding encode_fields sorted_fields sort
  no_fields_sorted = ([], refl, refl)

  mutual
    unfolding sorted_value

    encode_value-sorted :
        (v : Value) → IsEncodable decode_text v → encode_value (sorted_value v) ≡ encode_value v
    encode_value-sorted (uint n) h = refl
    encode_value-sorted (bytes b) h = refl
    encode_value-sorted (text t) h = refl
    encode_value-sorted (array vs) h = array-sorted vs (encode_items-sorted vs h.1)
    encode_value-sorted (map m) h =
        map-sorted m (sorted_fields-HasOrderedKeys decode_text m h.1) (fields_sorted m h.1)
    encode_value-sorted negative h = refl
    encode_value-sorted fraction h = refl
    encode_value-sorted non_finite h = refl
    encode_value-sorted null h = refl
    encode_value-sorted undefined h = refl
    encode_value-sorted unsupported h = refl

    encode_items-sorted :
        (vs : Items)
        → AllEncodable decode_text vs
        → encode_items (sorted_items vs) ≡ encode_items vs
    encode_items-sorted nil h = refl
    encode_items-sorted (cons v vs) h =
        cons-sorted v vs (encode_value-sorted v h.0) (encode_items-sorted vs h.1)

    fields_sorted :
        (m : Fields)
        → HasEncodableFields decode_text m
        → (entries : List Entry) × Encodes m entries
          × Encodes (sorted_fields m) (sort entry_le entries)
    fields_sorted end h = no_fields_sorted
    fields_sorted (field k v m) (kept, t, h, fields) =
        field-sorted k v m t (sorted-IsCanonical decode_text v h) (encode_value-sorted v h)
          (sorted_fields-HasOrderedKeys decode_text m fields) (fields_sorted m fields)

  -- A value of the kinds that the encoder takes, with no undefined field, whose texts the text codec
  -- leaves unchanged, whose numbers and lengths are heads' arguments that the decoder does not refuse,
  -- and whose maps have distinct keys, none of them "__proto__": it is encoded, and the decoder gives back
  -- from its bytes, with the fuel that it takes from their number, the same value with the fields of every
  -- map in the order of their encoded keys, whatever their order was.
  pub decode-canonical_cbor :
      (v : Value)
      → IsEncodable decode_text v
      → (enc : List ℕ) × (canonical_cbor v ≡ ok enc)
        × (decode_canonical_cbor decode_text enc ≡ ok (sorted_value v))
  unfolding canonical_cbor
  decode-canonical_cbor v h =
      let (enc, wrote, read) =
        decode-ordered_cbor decode_text (sorted_value v) (sorted-IsCanonical decode_text v h) in
      (enc, sym (encode_value-sorted v h) ∙ wrote, read)
