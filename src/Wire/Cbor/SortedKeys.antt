-- ===== src/Wire/Cbor/SortedKeys.antt =====
-- The sorted form of a value that the encoder accepts is canonical.
use mathlib.Core.Bool.{true≢false}
use cloister.Prelude.{
  ℕ, ◌≡◌, refl, sym, ap, subst, ◌∙◌, inl, inr, Bool, true, false, ◌||◌, Option, none, some, List,
  [], ◌++◌, arith, Bool-cases,
}
use cloister.Prelude.Keys.{◌==◌, ==_iff, nat_eq, list_eq}
use cloister.Prelude.Results.{ok, ok-injective}
use cloister.Wire.Cbor.{
  Value, uint, bytes, text, array, map, negative, fraction, non_finite, null, undefined,
  unsupported, Items, nil, cons, Fields, end, field,
}
use cloister.Wire.Cbor.Decode.{follows, has_key, decode_value}
use cloister.Wire.Cbor.Canonical.{
  key_bytes, IsText, IsKept, IsCanonical, AllCanonical, HasOrderedKeys, IsEncodable, AllEncodable,
  HasEncodableFields,
}
use cloister.Wire.Cbor.RoundTrip.{key_lem}
use cloister.Wire.Cbor.Sorted.{
  comes_first-cases, insert_field, sorted_value, sorted_items, sorted_fields,
  items_length-sorted_items, fields_length-sorted_fields, has_key-insert_field,
  has_key-sorted_fields,
}

text-injective : (k k' : List ℕ) → text k ≡ text k' → k ≡ k'
text-injective k k' h = cc

first_false : (a b : Bool) → (a || b) ≡ false → a ≡ false
first_false true b h = h
first_false false b h = refl

==_sym : (j k : List ℕ) → (j == k) ≡ false → (k == j) ≡ false
==_sym j k h = elim (Bool-cases (k == j)) [
  | inr differs ↦ differs
  | inl same ↦
      let e : (j == k) ≡ true = (==_iff j k).1 (sym ((==_iff k j).0 same)) in
      absurd (true≢false (sym e ∙ h))
]

module _ (decode_text : List ℕ → List ℕ) where
  -- The decoder tells two texts apart by their bytes.
  key_bytes-injective :
      (k k' : List ℕ)
      → IsText decode_text k
      → IsText decode_text k'
      → key_bytes k ≡ key_bytes k'
      → k ≡ k'
  key_bytes-injective k k' h h' same =
      let (_, _, reads) = key_lem decode_text k h in
      let (_, _, reads') = key_lem decode_text k' h' in
      let both : ok (text k, []) ≡ ok (text k', []) =
        sym (reads 1 [] (omega arith))
        ∙ ap (λ b. decode_value decode_text 1 (b ++ [])) same
        ∙ reads' 1 [] (omega arith) in
      text-injective k k' (ap (λ p. p.0) (ok-injective both))

  insert_field-HasOrderedKeys :
      (prev : Option (List ℕ)) (k : List ℕ) (v : Value) (m : Fields)
      → follows prev (key_bytes k) ≡ true
      → IsKept decode_text k m
      → IsText decode_text k
      → IsCanonical decode_text v
      → HasOrderedKeys decode_text prev m
      → HasOrderedKeys decode_text prev (insert_field k v m)
  unfolding insert_field
  insert_field-HasOrderedKeys prev k v end after kept t c ordered = (after, kept, t, c, tt)
  insert_field-HasOrderedKeys prev k v (field k' v' m) after kept t c
        (after', kept', t', c', ordered) =
      elim (comes_first-cases k k') [
        | inl (e, inl less) ↦
            let first : insert_field k v (field k' v' m) ≡ field k v (field k' v' m) = rw e refl in
            subst (HasOrderedKeys decode_text prev) (sym first)
              (after, kept, t, c, (less, kept', t', c', ordered))
        | inl (_, inr e) ↦
            let same : (k == k') ≡ true = (==_iff k k').1 (key_bytes-injective k k' t t' e) in
            absurd (true≢false (sym (rw same refl) ∙ kept.1))
        | inr (e, less) ↦
            let differs : (k == k') ≡ false = first_false (k == k') (has_key k m) kept.1 in
            let absent : has_key k m ≡ false = rw differs at kept.1 in
            let later : insert_field k v (field k' v' m) ≡ field k' v' (insert_field k v m) =
              rw e refl in
            subst (HasOrderedKeys decode_text prev) (sym later) (
              after',
              (kept'.0, has_key-insert_field k' k v m (==_sym k k' differs) kept'.1),
              t',
              c',
              insert_field-HasOrderedKeys (some (key_bytes k')) k v m less (kept.0, absent) t c
                  ordered,
            )
      ]

  mutual
    unfolding sorted_value

    pub sorted-IsCanonical :
        (v : Value) → IsEncodable decode_text v → IsCanonical decode_text (sorted_value v)
    sorted-IsCanonical (uint n) h = h
    sorted-IsCanonical (bytes b) h = h
    sorted-IsCanonical (text t) h = h
    sorted-IsCanonical (array vs) h =
        (rw items_length-sorted_items h.0, sorted_items-AllCanonical vs h.1)
    sorted-IsCanonical (map m) h =
        (rw fields_length-sorted_fields h.0, sorted_fields-HasOrderedKeys m h.1)
    sorted-IsCanonical negative h = h
    sorted-IsCanonical fraction h = h
    sorted-IsCanonical non_finite h = h
    sorted-IsCanonical null h = h
    sorted-IsCanonical undefined h = h
    sorted-IsCanonical unsupported h = h

    sorted_items-AllCanonical :
        (vs : Items) → AllEncodable decode_text vs → AllCanonical decode_text (sorted_items vs)
    sorted_items-AllCanonical nil h = tt
    sorted_items-AllCanonical (cons v vs) h =
        (sorted-IsCanonical v h.0, sorted_items-AllCanonical vs h.1)

    pub sorted_fields-HasOrderedKeys :
        (m : Fields)
        → HasEncodableFields decode_text m
        → HasOrderedKeys decode_text none (sorted_fields m)
    sorted_fields-HasOrderedKeys end h = tt
    sorted_fields-HasOrderedKeys (field k v m) (kept, t, h, fields) =
        insert_field-HasOrderedKeys none k (sorted_value v) (sorted_fields m) refl
          (kept.0, has_key-sorted_fields k m kept.1) t (sorted-IsCanonical v h)
          (sorted_fields-HasOrderedKeys m fields)
