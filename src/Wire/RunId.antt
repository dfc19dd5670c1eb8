-- ===== src/Wire/RunId.antt =====
-- src/wire/run-id.ts: the name of a run, from the authority that admitted it. Texts are held as their
-- UTF-8 bytes.
pub mod Framing
use cloister.Prelude.{ℕ, ◌/◌, ◌%◌, ◌^◌, List, [], ◌∷◌, ◌++◌, length}

-- "cloister/execution/v1/run-id"
abbrev pub run_id_domain : List ℕ
run_id_domain =
    99 ∷ 108 ∷ 111 ∷ 105 ∷ 115 ∷ 116 ∷ 101 ∷ 114 ∷ 47 ∷ 101 ∷ 120 ∷ 101 ∷ 99 ∷ 117 ∷ 116 ∷ 105 ∷ 111
    ∷ 110 ∷ 47 ∷ 118 ∷ 49 ∷ 47 ∷ 114 ∷ 117 ∷ 110 ∷ 45 ∷ 105 ∷ 100 ∷ []

-- "run-"
abbrev pub run_id_prefix : List ℕ
run_id_prefix = 114 ∷ 117 ∷ 110 ∷ 45 ∷ []

pub record RunIdInputs : Type 0 where
  pub canonical_spec_digest : List ℕ
  pub grant_id : List ℕ
  pub replay_key : List ℕ

-- `setBigUint64(0, value, true)`
unfoldable pub u64le : ℕ → List ℕ
u64le value =
    value % 256
    ∷ value / 2 ^ 8 % 256
    ∷ value / 2 ^ 16 % 256
    ∷ value / 2 ^ 24 % 256
    ∷ value / 2 ^ 32 % 256
    ∷ value / 2 ^ 40 % 256
    ∷ value / 2 ^ 48 % 256
    ∷ value / 2 ^ 56 % 256
    ∷ []

-- The loop over the fields, from the parts before them.
unfoldable pub frame_all : List (List ℕ) → List ℕ
unfolding u64le
frame_all [] = []
frame_all (field ∷ fields) = u64le (length field) ++ (field ++ frame_all fields)

unfoldable pub build_run_id_preimage : RunIdInputs → List ℕ
unfolding frame_all
build_run_id_preimage inputs =
    run_id_domain
    ++ (0 ∷ frame_all (inputs.canonical_spec_digest ∷ inputs.grant_id ∷ inputs.replay_key ∷ []))

-- `blake3_hex` is the text of the digest.
unfoldable pub derive_run_id : (List ℕ → List ℕ) → RunIdInputs → List ℕ
unfolding build_run_id_preimage
derive_run_id blake3_hex inputs = run_id_prefix ++ blake3_hex (build_run_id_preimage inputs)
