-- ===== src/Wire/Cbor/Head.antt =====
-- Heads: the argument that is written and the argument that is read.
use cloister.Prelude.{
  ℕ, ◌+◌, ◌*◌, ◌/◌, ◌%◌, ◌^◌, ◌≤◌, ◌<◌, ◌≡◌, ◌⊎◌, inl, inr, List, [], ◌∷◌, ◌++◌, arith, ltb, ltb→lt,
  Bool-cases,
}
use cloister.Prelude.Keys.{nat_eq}
use cloister.Prelude.Results.{ok, err}
use cloister.Wire.Cbor.{write_head, non_canonical_length}
use cloister.Wire.Cbor.Decode.{read_byte, read_argument}

-- A head for an argument: its first byte has the major type, and whatever follows the head the reader
-- gives the argument back and stops there.
abbrev pub HasHead : ℕ → ℕ → Type 0
HasHead major n =
    (b : ℕ) × (t : List ℕ) × (write_head major n ≡ ok (b ∷ t))
    × (b / 32 ≡ major)
    × ((rest : List ℕ) → read_argument b (t ++ rest) ≡ ok (n, rest))

module _ (major n : ℕ) (small : major < 8) where
  one_byte : n < 24 → HasHead major n
  unfolding write_head read_argument
  one_byte lt = (major % 8 * 32 + n, [], ground arith, omega arith, λ rest. ground arith)

  two_bytes : 24 ≤ n → n < 256 → HasHead major n
  unfolding write_head read_argument read_byte
  two_bytes ge lt = (major % 8 * 32 + 24, n ∷ [], ground arith, omega arith, λ rest. ground arith)

  three_bytes : 256 ≤ n → n < 65536 → HasHead major n
  unfolding write_head read_argument read_byte
  three_bytes ge lt = (
    major % 8 * 32 + 25,
    n / 256 % 256 ∷ n % 256 ∷ [],
    ground arith,
    omega arith,
    λ rest. ground arith,
  )

  five_bytes : 65536 ≤ n → n < 2 ^ 31 → HasHead major n
  unfolding write_head read_argument read_byte
  five_bytes ge lt = (
    major % 8 * 32 + 26,
    n / 2 ^ 24 % 256 ∷ n / 2 ^ 16 % 256 ∷ n / 2 ^ 8 % 256 ∷ n % 256 ∷ [],
    ground arith,
    omega arith,
    λ rest. ground arith,
  )

  nine_bytes : 2 ^ 32 ≤ n → n < 2 ^ 64 → HasHead major n
  unfolding write_head read_argument read_byte
  nine_bytes ge lt = (
    major % 8 * 32 + 27,
    n / 2 ^ 56 % 256
        ∷ n / 2 ^ 48 % 256
        ∷ n / 2 ^ 40 % 256
        ∷ n / 2 ^ 32 % 256
        ∷ n / 2 ^ 24 % 256
        ∷ n / 2 ^ 16 % 256
        ∷ n / 2 ^ 8 % 256
        ∷ n % 256
        ∷ [],
    ground arith,
    omega arith,
    λ rest. ground arith,
  )

-- The arguments that survive: below 2 ^ 31, or from 2 ^ 32 to the end of u64.
abbrev pub IsArgument : ℕ → Type 0
IsArgument n = ((n < 2 ^ 31) ⊎ (2 ^ 32 ≤ n)) × (n < 2 ^ 64)

-- Every argument of u64 but those from 2 ^ 31 to 2 ^ 32 has a head, in whose first byte the major
-- type stands, and whatever follows that head the reader gives the argument back and stops there.
pub head_lem : (major n : ℕ) → major < 8 → IsArgument n → HasHead major n
head_lem major n small (inr ge, lt) = nine_bytes major n small ge lt
head_lem major n small (inl below, lt) = elim (Bool-cases (ltb n 24)) [
  | inl e ↦ one_byte major n small (omega (arith, ltb→lt n 24 e))
  | inr a ↦ elim (Bool-cases (ltb n 256)) [
    | inl e ↦ two_bytes major n small (ground arith) (ground arith)
    | inr b ↦ elim (Bool-cases (ltb n 65536)) [
      | inl e ↦ three_bytes major n small (ground arith) (ground arith)
      | inr c ↦ five_bytes major n small (ground arith) below
    ]
  ]
]

-- The encoder writes the arguments from 2 ^ 31 to 2 ^ 32 in four bytes, and the decoder refuses
-- every one of these heads as not canonical.
pub head_lost :
    (major n : ℕ) (rest : List ℕ)
    → major < 8
    → 2 ^ 31 ≤ n
    → n < 2 ^ 32
    → (b : ℕ) × (t : List ℕ) × (write_head major n ≡ ok (b ∷ t))
      × (read_argument b (t ++ rest) ≡ err non_canonical_length)
unfolding write_head read_argument read_byte
head_lost major n rest small ge lt = (
  major % 8 * 32 + 26,
  n / 2 ^ 24 % 256 ∷ n / 2 ^ 16 % 256 ∷ n / 2 ^ 8 % 256 ∷ n % 256 ∷ [],
  ground arith,
  ground arith,
)
