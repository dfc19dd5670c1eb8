-- ===== src/Wire/Tests.antt =====
-- A receipt's body as a value, and heads of concrete arguments.
use cloister.Prelude.{ℕ, ◌<◌, ◌≡◌, refl, inl, inr, List, [], ◌∷◌, ◌++◌, arith}
use cloister.Prelude.Results.{ok, err}
use cloister.Wire.Cbor.{
  Value, uint, bytes, text, array, map, nil, cons, end, field, items_length, write_head,
  encode_text, compare_bytes, canonical_cbor, non_canonical_length,
}
use cloister.Wire.Cbor.Decode.{read_argument, decode_canonical_cbor}
use cloister.Wire.Cbor.Head.{IsArgument, head_lost}
use cloister.Wire.Cbor.Canonical.{IsEncodable}
use cloister.Wire.Cbor.Sorted.{sorted_value}
use cloister.Wire.Cbor.AnyOrder.{decode-canonical_cbor}
use cloister.Prelude.{All}
use cloister.Wire.RunId.{RunIdInputs}
use cloister.Wire.RunId.Framing.{HasU64Length, fields_of, preimage_determines}
use cloister.Prelude.{◌≢◌}
use cloister.Wire.Cbor.{out_of_fuel}
use cloister.Wire.Cbor.Fuel.{decode-has_fuel}

-- A decoder of plain bytes.
abbrev ascii : List ℕ → List ℕ
ascii t = t

-- {"peer": [h'01', "ok"], "ts": 1700000000000}: the shorter key is written first.
abbrev ts_key : List ℕ
ts_key = 116 ∷ 115 ∷ []

abbrev peer_key : List ℕ
peer_key = 112 ∷ 101 ∷ 101 ∷ 114 ∷ []

abbrev peer_value : Value
peer_value = array (cons (bytes (1 ∷ [])) (cons (text (111 ∷ 107 ∷ [])) nil))

abbrev receipt : Value
receipt = map (field peer_key peer_value (field ts_key (uint 1700000000000) end))

small : (n : ℕ) → n < 24 → IsArgument n
small n lt = (inl (omega arith), omega arith)

receipt-IsEncodable : IsEncodable ascii receipt
unfolding items_length
receipt-IsEncodable = (
  small 2 (omega arith),
  (
    (refl, refl),
    (small 4 (omega arith), refl),
    (small 2 (omega arith), (small 1 (omega arith), ((small 2 (omega arith), refl), tt))),
    ((refl, refl), (small 2 (omega arith), refl), (inr (omega arith), omega arith), tt),
  ),
)

sorted_receipt :
    sorted_value receipt ≡ map (field ts_key (uint 1700000000000) (field peer_key peer_value end))
unfolding sorted_value encode_text write_head compare_bytes
sorted_receipt = refl

-- {"__proto__": 1} loses its field.
proto_lost :
    decode_canonical_cbor ascii
      (161 ∷ 105 ∷ 95 ∷ 95 ∷ 112 ∷ 114 ∷ 111 ∷ 116 ∷ 111 ∷ 95 ∷ 95 ∷ 1 ∷ [])
    ≡ ok (map end)
unfolding decode_canonical_cbor
proto_lost = refl

decode-canonical_cbor_example :
    (enc : List ℕ) × (canonical_cbor receipt ≡ ok enc)
    × (decode_canonical_cbor ascii enc ≡ ok (sorted_value receipt))
decode-canonical_cbor_example = decode-canonical_cbor ascii receipt receipt-IsEncodable

head_lost_example :
    (b : ℕ) × (t : List ℕ) × (write_head 0 3000000000 ≡ ok (b ∷ t))
    × (read_argument b (t ++ []) ≡ err non_canonical_length)
head_lost_example = head_lost 0 3000000000 [] (omega arith) (omega arith) (omega arith)

abbrev run : RunIdInputs
run = record { canonical_spec_digest = 100 ∷ []; grant_id = 97 ∷ 98 ∷ []; replay_key = 99 ∷ [] }

run-HasU64Length : All HasU64Length (fields_of run)
run-HasU64Length = (omega arith, (omega arith, (omega arith, tt)))

preimage_determines_example :
    (run.canonical_spec_digest ≡ run.canonical_spec_digest)
    × (run.grant_id ≡ run.grant_id)
    × (run.replay_key ≡ run.replay_key)
preimage_determines_example = preimage_determines run run run-HasU64Length run-HasU64Length refl

-- An array that announces a thousand items and has none.
abbrev truncated : List ℕ
truncated = 153 ∷ 3 ∷ 232 ∷ []

decode-has_fuel_example : decode_canonical_cbor ascii truncated ≢ err out_of_fuel
decode-has_fuel_example = decode-has_fuel ascii truncated
