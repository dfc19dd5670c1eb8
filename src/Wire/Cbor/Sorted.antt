-- ===== src/Wire/Cbor/Sorted.antt =====
-- Sorting the fields of a map by their encoded keys.
use Prim.Native.Nat.{compare, Ordering}
use mathlib.Core.Bool.{true≢false}
use cloister.Prelude.{
  ℕ, suc, ◌≡◌, refl, sym, ap, ◌∙◌, ◌⊎◌, inl, inr, Bool, true, false, some, List, [], ◌∷◌, arith,
  Bool-cases, if◌then◌else◌,
}
use cloister.Prelude.Keys.{◌==◌, nat_eq, list_eq}
use cloister.Wire.Cbor.{
  Value, array, map, Items, nil, cons, Fields, end, field, compare_bytes, items_length,
}
use cloister.Wire.Cbor.Decode.{follows, has_key}
use cloister.Wire.Cbor.Canonical.{key_bytes, fields_length}

nat_compare_cases :
    (a b : ℕ)
    → (compare a b ≡ Ordering.lt)
      ⊎ (((compare a b ≡ Ordering.eq) × (compare b a ≡ Ordering.eq) × (a ≡ b))
          ⊎ ((compare a b ≡ Ordering.gt) × (compare b a ≡ Ordering.lt)))
nat_compare_cases a b = grind arith

pub compare_bytes-cases :
    (a b : List ℕ)
    → (compare_bytes a b ≡ Ordering.lt)
      ⊎ (((compare_bytes a b ≡ Ordering.eq) × (a ≡ b))
          ⊎ ((compare_bytes a b ≡ Ordering.gt) × (compare_bytes b a ≡ Ordering.lt)))
unfolding compare_bytes
compare_bytes-cases [] [] = inr (inl (refl, refl))
compare_bytes-cases [] (b ∷ bs) = inl refl
compare_bytes-cases (a ∷ as') [] = inr (inr (refl, refl))
compare_bytes-cases (a ∷ as') (b ∷ bs) = elim (nat_compare_cases a b) [
  | inl less ↦ inl (rw (less, compare_bytes) refl)
  | inr (inr (more, less)) ↦
      inr (inr (rw (more, compare_bytes) refl, rw (less, compare_bytes) refl))
  | inr (inl (same, back, e)) ↦ elim (compare_bytes-cases as' bs) [
    | inl less ↦ inl (rw (same, less, compare_bytes) refl)
    | inr (inl (same_rest, f)) ↦
        inr (inl (rw (same, same_rest, compare_bytes) refl, rw (e, f) refl))
    | inr (inr (more, less)) ↦
        inr (inr (rw (same, more, compare_bytes) refl, rw (back, less, compare_bytes) refl))
  ]
]

-- Whether a key is written ahead of another, or is the same.
abbrev pub comes_first : List ℕ → List ℕ → Bool
comes_first k k' = elim (compare_bytes (key_bytes k) (key_bytes k')) [
  | Ordering.gt ↦ false
  | _ ↦ true
]

-- Of two keys, one follows the other, or they have the same bytes.
pub comes_first-cases :
    (k k' : List ℕ)
    → ((comes_first k k' ≡ true)
        × ((follows (some (key_bytes k)) (key_bytes k') ≡ true) ⊎ (key_bytes k ≡ key_bytes k')))
      ⊎ ((comes_first k k' ≡ false) × (follows (some (key_bytes k')) (key_bytes k) ≡ true))
comes_first-cases k k' =
    let first : Ordering → Bool = λ o. elim o [ Ordering.gt ↦ false | _ ↦ true ] in
    let after : Ordering → Bool = λ o. elim o [ Ordering.lt ↦ true | _ ↦ false ] in
    elim (compare_bytes-cases (key_bytes k) (key_bytes k')) [
      | inl less ↦ inl (ap first less, inl (ap after less))
      | inr (inl (same, e)) ↦ inl (ap first same, inr e)
      | inr (inr (more, less)) ↦ inr (ap first more, ap after less)
    ]

unfoldable pub insert_field : List ℕ → Value → Fields → Fields
insert_field k v end = field k v end
insert_field k v (field k' v' m) =
    if comes_first k k' then field k v (field k' v' m) else field k' v' (insert_field k v m)

-- The value with the fields of every map in the order of their encoded keys.
unfoldable mutual
  unfolding insert_field

  pub sorted_value : Value → Value
  sorted_value (array vs) = array (sorted_items vs)
  sorted_value (map m) = map (sorted_fields m)
  sorted_value v = v

  pub sorted_items : Items → Items
  sorted_items nil = nil
  sorted_items (cons v vs) = cons (sorted_value v) (sorted_items vs)

  pub sorted_fields : Fields → Fields
  sorted_fields end = end
  sorted_fields (field k v m) = insert_field k (sorted_value v) (sorted_fields m)

pub items_length-sorted_items : (vs : Items) → items_length (sorted_items vs) ≡ items_length vs
unfolding sorted_items items_length
items_length-sorted_items nil = refl
items_length-sorted_items (cons v vs) = ap suc (items_length-sorted_items vs)

fields_length-insert_field :
    (k : List ℕ) (v : Value) (m : Fields)
    → fields_length (insert_field k v m) ≡ suc (fields_length m)
unfolding insert_field
fields_length-insert_field k v end = refl
fields_length-insert_field k v (field k' v' m) = elim (Bool-cases (comes_first k k')) [
  | inl e ↦ rw e refl
  | inr e ↦ rw e (ap suc (fields_length-insert_field k v m))
]

pub fields_length-sorted_fields : (m : Fields) → fields_length (sorted_fields m) ≡ fields_length m
unfolding sorted_fields
fields_length-sorted_fields end = refl
fields_length-sorted_fields (field k v m) =
    fields_length-insert_field k (sorted_value v) (sorted_fields m)
    ∙ ap suc (fields_length-sorted_fields m)

pub has_key-insert_field :
    (j k : List ℕ) (v : Value) (m : Fields)
    → (j == k) ≡ false
    → has_key j m ≡ false
    → has_key j (insert_field k v m) ≡ false
unfolding insert_field
has_key-insert_field j k v end other absent = rw other refl
has_key-insert_field j k v (field k' v' m) other absent = elim (Bool-cases (j == k')) [
  | inl same ↦ absurd (true≢false (sym (rw same refl) ∙ absent))
  | inr differs ↦
      let below : has_key j m ≡ false = rw differs at absent in
      elim (Bool-cases (comes_first k k')) [
        | inl e ↦ rw (e, other, differs, below) refl
        | inr e ↦ rw (e, differs, has_key-insert_field j k v m other below) refl
      ]
]

pub has_key-sorted_fields :
    (j : List ℕ) (m : Fields) → has_key j m ≡ false → has_key j (sorted_fields m) ≡ false
unfolding sorted_fields
has_key-sorted_fields j end absent = refl
has_key-sorted_fields j (field k v m) absent = elim (Bool-cases (j == k)) [
  | inl same ↦ absurd (true≢false (sym (rw same refl) ∙ absent))
  | inr differs ↦
      has_key-insert_field j k (sorted_value v) (sorted_fields m) differs
        (has_key-sorted_fields j m (rw differs at absent))
]
