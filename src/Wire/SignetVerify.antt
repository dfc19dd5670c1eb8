-- ===== src/Wire/SignetVerify.antt =====
-- src/wire/signet-verify.ts: the check of a lease certificate against a master key and the claims read
-- from the answer. The WebAssembly module and the JSON parser are arguments.
pub mod Claims
mod Tests
use cloister.Prelude.{
  ℕ, String, Bool, true, false, not, Option, none, some, List, [], ◌∷◌, length, if◌then◌else◌,
}
use cloister.Prelude.Keys.{◌==◌, nat_eq, string_eq}
use cloister.Prelude.Results.{Result, ok, err, ◌>>=◌, ◌>>◌, guard}
use cloister.Prelude.Chars.{b64decode}

-- A field of parsed JSON as far as the claims are read: `other` is anything but a number or a text.
pub data Json : Type 0 where
  other : Json
  number : ℕ → Json
  string : String → Json

-- A parsed document: `null`, an object with one field for each name, or another value, which has none
-- of the names.
pub data Document : Type 0 where
  null : Document
  object : List (String × Json) → Document
  no_object : Document

-- Times in seconds.
pub record CertClaims : Type 0 where
  pub ephemeral_pubkey : List ℕ
  pub not_before : ℕ
  pub not_after : ℕ
  pub epoch : Option ℕ
  pub peer_fp : Option String
  pub scope : Option String
  pub confinement_digest : Option (List ℕ)

-- `{ ok: false, reason }`, or the TypeError that reading a field of `null` throws.
pub data ChainFailure : Type 0 where
  refused : (reason : String) → ChainFailure
  type_error : ChainFailure

-- `parsed[name]`, `none` for `undefined`
unfoldable pub field_of : String → List (String × Json) → Option Json
field_of name [] = none
field_of name ((key, value) ∷ fields) = if key == name then some value else field_of name fields

abbrev pub fields_of : Document → Result ChainFailure (List (String × Json))
fields_of null = err type_error
fields_of (object fields) = ok fields
fields_of no_object = ok []

-- `typeof value === "string"` and `typeof value === "number"`
abbrev pub as_string : Option Json → Option String
as_string (some (string s)) = some s
as_string value = none

abbrev pub as_number : Option Json → Option ℕ
as_number (some (number n)) = some n
as_number value = none

-- The value, or a refusal with this reason.
abbrev pub required {ℓ} : {A : Type ℓ} → String → Option A → Result ChainFailure A
required reason none = err (refused reason)
required reason (some a) = ok a

module _ (atob : String → Option (List ℕ)) where
  -- 32 bytes of base64url
  unfoldable pub decode_32 : String → String → String → Result ChainFailure (List ℕ)
  decode_32 not_base64 wrong_length raw = do
    bytes ← required not_base64 (b64decode atob raw)
    guard (length bytes == 32) (refused wrong_length)
    ok bytes

  unfoldable pub confinement_digest_of : Option Json → Result ChainFailure (Option (List ℕ))
  confinement_digest_of none = ok none
  confinement_digest_of (some cd) = do
    raw ← required "claims cd present but not a string" (as_string (some cd))
    digest ←
        decode_32 "claims cd not valid base64url"
          "claims cd wrong length (expected 32 bytes BLAKE3-256)" raw
    ok (some digest)

  unfoldable pub parse_claims_json : Option Document → Result ChainFailure CertClaims
  parse_claims_json json = do
    parsed ← required "claims JSON parse failed" json
    fields ← fields_of parsed
    epk_raw ← required "claims missing epk" (as_string (field_of "epk" fields))
    nb_raw ← required "claims missing nb" (as_number (field_of "nb" fields))
    na_raw ← required "claims missing na" (as_number (field_of "na" fields))
    ephemeral_pubkey ←
        decode_32 "claims epk not valid base64url"
          "claims epk wrong length (expected 32 bytes Ed25519)" epk_raw
    confinement_digest ← confinement_digest_of (field_of "cd" fields)
    ok (record {
      ephemeral_pubkey = ephemeral_pubkey;
      not_before = nb_raw;
      not_after = na_raw;
      epoch = as_number (field_of "ep" fields);
      peer_fp = as_string (field_of "pf" fields);
      scope = as_string (field_of "sc" fields);
      confinement_digest = confinement_digest;
    })

  -- `leyline_verify_cert_path` with no intermediates and the Interlace profile: the text of the claims,
  -- or `none` for a negative result.
  module _ (json_parse : String → Option Document)
      (leyline_verify_cert_path : List ℕ → List ℕ → Option String) where
    unfoldable pub verify_cert_chain : List ℕ → List ℕ → Result ChainFailure CertClaims
    verify_cert_chain cert_der master_pubkey = do
      guard (length master_pubkey == 32) (refused "master pubkey must be 32 bytes (Ed25519)")
      json ←
          required "cert chain verify failed (parse, sig, profile, or buffer)"
            (leyline_verify_cert_path cert_der master_pubkey)
      parse_claims_json (json_parse json)
