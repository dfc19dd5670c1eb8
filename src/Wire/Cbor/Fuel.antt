-- ===== src/Wire/Cbor/Fuel.antt =====
-- The fuel of the decoder against the bytes that are left.
use cloister.Prelude.{
  ℕ, zero, suc, ◌+◌, ◌-◌, ◌*◌, ◌/◌, ◌≤◌, ◌≡◌, ◌≢◌, refl, subst, true, false, Option, none, some,
  List, [], ◌∷◌, arith, length, take, if◌then◌else◌,
}
use cloister.Prelude.Keys.{◌==◌, nat_eq}
use cloister.Prelude.Results.{ok, err, ◌>>=◌, ◌>>◌, guard}
use cloister.Wire.Cbor.{
  Value, uint, bytes, text, array, map, Items, cons, Fields, Coded, out_of_fuel,
}
use cloister.Wire.Cbor.{negative_integer, tagged, simple_or_float, trailing_bytes}
use cloister.Wire.Cbor.Decode.{
  read_bytes, read_argument, decode_value, decode_items, decode_fields, fuel_for,
  decode_canonical_cbor,
}
use cloister.Wire.Cbor.Steps.{
  is_out_of_fuel, Steps, finished, refused, Steps-bind, Steps-guard, Steps-if, Steps-then,
  Steps-argument, Steps-payload, Steps-weaken, Steps-as_text,
}

module _ (decode_text : List ℕ → List ℕ) where
  -- With two rounds for each byte and one more, a value leaves fewer bytes than it found.
  abbrev ValueSteps : ℕ → Type 0
  ValueSteps fuel =
      (c : List ℕ)
      → 2 * length c + 1 ≤ fuel
      → Steps (length c - 1) (decode_value decode_text fuel c)

  abbrev ItemsSteps : ℕ → Type 0
  ItemsSteps fuel =
      (n : ℕ) (c : List ℕ)
      → 2 * length c + 2 ≤ fuel
      → Steps (length c) (decode_items decode_text fuel n c)

  abbrev FieldsSteps : ℕ → Type 0
  FieldsSteps fuel =
      (n : ℕ) (prev : Option (List ℕ)) (c : List ℕ)
      → 2 * length c + 2 ≤ fuel
      → Steps (length c) (decode_fields decode_text fuel n prev c)

  module _ (fuel m : ℕ) (room : 2 * m + 2 ≤ fuel) where
    Steps-items :
        {B : Type 0} (n : ℕ) (d : List ℕ) (f : Items × List ℕ → Coded (B × List ℕ))
        → ItemsSteps fuel
        → length d ≤ m
        → ((vs : Items) (e : List ℕ) → length e ≤ m → Steps m (f (vs, e)))
        → Steps m (decode_items decode_text fuel n d >>= f)
    Steps-items n d f items le =
        Steps-then m d (decode_items decode_text fuel n d) f (items n d (omega arith)) le

    Steps-fields :
        {B : Type 0} (n : ℕ) (prev : Option (List ℕ)) (d : List ℕ)
        (f : Fields × List ℕ → Coded (B × List ℕ))
        → FieldsSteps fuel
        → length d ≤ m
        → ((vs : Fields) (e : List ℕ) → length e ≤ m → Steps m (f (vs, e)))
        → Steps m (decode_fields decode_text fuel n prev d >>= f)
    Steps-fields n prev d f fields le =
        Steps-then m d (decode_fields decode_text fuel n prev d) f (fields n prev d (omega arith))
          le

  -- One round on a byte that is there.
  abbrev round : ℕ → ℕ → List ℕ → Coded (Value × List ℕ)
  round fuel initial c =
      let major = initial / 32 in
      let items = (do
        (n, c1) ← read_argument initial c
        (vs, c2) ← decode_items decode_text fuel n c1
        ok (array vs, c2)) in
      let fields = (do
        (n, c1) ← read_argument initial c
        (m, c2) ← decode_fields decode_text fuel n none c1
        ok (map m, c2)) in
      if major == 0
      then (do (n, c1) ← read_argument initial c; ok (uint n, c1))
      else if major == 1
      then err negative_integer
      else if major == 2
      then (do (n, c1) ← read_argument initial c; (v, c2) ← read_bytes n c1; ok (bytes v, c2))
      else if major == 3
      then (do
        (n, c1) ← read_argument initial c
        (v, c2) ← read_bytes n c1
        ok (text (decode_text v), c2))
      else if major == 4
      then items
      else if major == 5
      then fields
      else if major == 6
      then err tagged
      else err simple_or_float

  decode_value-round :
      (fuel initial : ℕ) (c : List ℕ)
      → decode_value decode_text (suc fuel) (initial ∷ c) ≡ round fuel initial c
  unfolding decode_value
  decode_value-round fuel initial c = refl

  Steps-round :
      (fuel initial : ℕ) (c : List ℕ)
      → 2 * length c + 2 ≤ fuel
      → ItemsSteps fuel
      → FieldsSteps fuel
      → Steps (length c) (round fuel initial c)
  Steps-round fuel initial c room items fields =
      let all : length c ≤ length c = omega arith in
      search (Steps-if, Steps-argument, Steps-payload, Steps-items, Steps-fields, finished, refused)
        depth 24

  item_round :
      (fuel n : ℕ) (b : ℕ) (c : List ℕ)
      → 2 * length c + 3 ≤ fuel
      → ValueSteps fuel
      → ItemsSteps fuel
      → Steps (suc (length c)) (do
        (v, c1) ← decode_value decode_text fuel (b ∷ c)
        (vs, c2) ← decode_items decode_text fuel n c1
        ok (cons v vs, c2))
  item_round fuel n b c room values items = Steps-bind _ _ (values (b ∷ c) (omega arith)) (λ v c1 h.
      Steps-bind _ _ (items n c1 (omega arith)) (λ vs c2 k. finished {c = c2} (omega arith)))

  field_round :
      (fuel n : ℕ) (prev : Option (List ℕ)) (b : ℕ) (c : List ℕ)
      → 2 * length c + 3 ≤ fuel
      → ValueSteps fuel
      → FieldsSteps fuel
      → Steps (suc (length c)) (decode_fields decode_text (suc fuel) (suc n) prev (b ∷ c))
  unfolding decode_fields
  field_round fuel n prev b c room values fields =
      Steps-bind _ _ (values (b ∷ c) (omega arith)) (λ key c1 h. Steps-as_text _ key _ (λ k.
        Steps-guard _ _ _ refl (
          Steps-bind _ _ (values c1 (omega arith)) (λ v c2 h2.
            Steps-bind _ _
              (fields n (some (take (length (b ∷ c) - length c1) (b ∷ c))) c2 (omega arith))
              (λ m c3 h3. finished {c = c3} (omega arith))))))

  value_case : (fuel : ℕ) → ItemsSteps fuel → FieldsSteps fuel → ValueSteps (suc fuel)
  unfolding decode_value
  value_case fuel items fields [] le = refused refl
  value_case fuel items fields (b ∷ c) le =
      let less : length c ≤ length (b ∷ c) - 1 = omega arith in
      rw decode_value-round
        (Steps-weaken (length c) _ _ less (Steps-round fuel b c (omega arith) items fields))

  items_case : (fuel : ℕ) → ValueSteps fuel → ItemsSteps fuel → ItemsSteps (suc fuel)
  unfolding decode_items
  items_case fuel values items zero c le = finished (omega arith)
  items_case zero values items (suc n) [] le = absurd (omega arith)
  items_case (suc fuel) values items (suc n) [] le = refused refl
  items_case fuel values items (suc n) (b ∷ c) le = item_round fuel n b c (omega arith) values items

  fields_case : (fuel : ℕ) → ValueSteps fuel → FieldsSteps fuel → FieldsSteps (suc fuel)
  unfolding decode_fields
  fields_case fuel values fields zero prev c le = finished (omega arith)
  fields_case zero values fields (suc n) prev [] le = absurd (omega arith)
  fields_case (suc fuel) values fields (suc n) prev [] le = refused refl
  fields_case fuel values fields (suc n) prev (b ∷ c) le =
      field_round fuel n prev b c (omega arith) values fields

  all_steps : (fuel : ℕ) → ValueSteps fuel × ItemsSteps fuel × FieldsSteps fuel
  all_steps zero = (
    λ c le. absurd (omega arith),
    λ n c le. absurd (omega arith),
    λ n prev c le. absurd (omega arith),
  )
  all_steps (suc fuel) =
      let (values, items, fields) = all_steps fuel in
      (value_case fuel items fields, items_case fuel values items, fields_case fuel values fields)

  true≢false : true ≢ false
  true≢false e = subst (λ b. elim b [ true ↦ Unit {0} | false ↦ ⊥ ]) e tt

  accepted :
      (n : ℕ) (r : Coded (Value × List ℕ))
      → Steps n r
      → (do (v, rest) ← r; guard (length rest == 0) trailing_bytes; ok v) ≢ err out_of_fuel
  accepted n _ (finished {c = []} le) e = cc
  accepted n _ (finished {c = b ∷ c} le) e = ground arith
  accepted n _ (refused {e = x} h) e =
      let same : x ≡ out_of_fuel = cc in true≢false (subst (λ y. is_out_of_fuel y ≡ false) same h)

  -- Whatever the bytes, the decoder ends before its fuel does: it gives a value or one of the errors of
  -- the source.
  pub decode-has_fuel : (c : List ℕ) → decode_canonical_cbor decode_text c ≢ err out_of_fuel
  unfolding decode_canonical_cbor
  decode-has_fuel c =
      accepted (length c - 1) (decode_value decode_text (fuel_for c) c)
        ((all_steps (fuel_for c)).0 c (omega arith))
