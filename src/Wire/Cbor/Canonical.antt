-- ===== src/Wire/Cbor/Canonical.antt =====
-- The values that a decoder can give back, and a measure of them.
use cloister.Prelude.{ℕ, suc, ◌+◌, ◌≡◌, true, false, Option, none, some, List, [], length}
use cloister.Prelude.Keys.{◌==◌, nat_eq, list_eq}
use cloister.Prelude.Results.{ok, err}
use cloister.Wire.Cbor.{
  Value, uint, bytes, text, array, map, Items, nil, cons, Fields, end, field, items_length, Coded,
  encode_text,
}
use cloister.Wire.Cbor.Decode.{follows, proto_key, has_key}
use cloister.Wire.Cbor.Head.{IsArgument}

abbrev pub written : Coded (List ℕ) → List ℕ
written (ok b) = b
written (err e) = []

-- A key's encoded bytes.
abbrev pub key_bytes : List ℕ → List ℕ
key_bytes k = written (encode_text k)

abbrev pub fields_length : Fields → ℕ
fields_length end = 0
fields_length (field k v m) = suc (fields_length m)

-- The rounds of fuel that a value takes.
abbrev mutual
  pub size : Value → ℕ
  size (array vs) = 1 + items_size vs
  size (map m) = 1 + fields_size m
  size _ = 1

  pub items_size : Items → ℕ
  items_size nil = 0
  items_size (cons v vs) = 1 + size v + items_size vs

  pub fields_size : Fields → ℕ
  fields_size end = 0
  fields_size (field k v m) = 2 + size v + fields_size m

module _ (decode_text : List ℕ → List ℕ) where
  -- A text that is its own decoding, with a length that the reader does not lose.
  abbrev pub IsText : List ℕ → Type 0
  IsText t = IsArgument (length t) × (decode_text t ≡ t)

  -- A key that stays a property of its own among the fields after it: it is not "__proto__" and is not
  -- among them.
  abbrev pub IsKept : List ℕ → Fields → Type 0
  IsKept k m = ((k == proto_key) ≡ false) × (has_key k m ≡ false)

  -- No value of a refused kind; every argument is one that the reader does not lose; and the keys of
  -- each map are kept, in the order of their encoded bytes.
  abbrev mutual
    pub IsCanonical : Value → Type 0
    IsCanonical (uint n) = IsArgument n
    IsCanonical (bytes v) = IsArgument (length v)
    IsCanonical (text t) = IsText t
    IsCanonical (array vs) = IsArgument (items_length vs) × AllCanonical vs
    IsCanonical (map m) = IsArgument (fields_length m) × HasOrderedKeys none m
    IsCanonical _ = ⊥

    pub AllCanonical : Items → Type 0
    AllCanonical nil = Unit
    AllCanonical (cons v vs) = IsCanonical v × AllCanonical vs

    pub HasOrderedKeys : Option (List ℕ) → Fields → Type 0
    HasOrderedKeys prev end = Unit
    HasOrderedKeys prev (field k v m) =
        (follows prev (key_bytes k) ≡ true)
        × IsKept k m
        × IsText k
        × IsCanonical v
        × HasOrderedKeys (some (key_bytes k)) m

  -- As above, with the fields of each map in any order.
  abbrev mutual
    pub IsEncodable : Value → Type 0
    IsEncodable (uint n) = IsArgument n
    IsEncodable (bytes v) = IsArgument (length v)
    IsEncodable (text t) = IsText t
    IsEncodable (array vs) = IsArgument (items_length vs) × AllEncodable vs
    IsEncodable (map m) = IsArgument (fields_length m) × HasEncodableFields m
    IsEncodable _ = ⊥

    pub AllEncodable : Items → Type 0
    AllEncodable nil = Unit
    AllEncodable (cons v vs) = IsEncodable v × AllEncodable vs

    pub HasEncodableFields : Fields → Type 0
    HasEncodableFields end = Unit
    HasEncodableFields (field k v m) = IsKept k m × IsText k × IsEncodable v × HasEncodableFields m
