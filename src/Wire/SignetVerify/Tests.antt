-- ===== src/Wire/SignetVerify/Tests.antt =====
-- A certificate's claims.
use cloister.Prelude.{ℕ, ◌≡◌, refl, String, Option, none, some, List, [], ◌∷◌, replicate}
use cloister.Prelude.Results.{ok}
use cloister.Prelude.Chars.{b64decode, replace_all}
use cloister.Wire.SignetVerify.{
  Document, object, number, string, CertClaims, field_of, decode_32, confinement_digest_of,
  parse_claims_json,
}

-- The claims of a certificate: every text decodes to 32 bytes.
abbrev thirty_two : String → Option (List ℕ)
thirty_two s = some (replicate 32 7)

abbrev document : Document
document = object (
    ("epk", string "a2V5")
    ∷ ("nb", number 5)
    ∷ ("na", number 9)
    ∷ ("sc", string "search:*")
    ∷ ("cd", string "Y2Q")
    ∷ [])

abbrev claims : CertClaims
claims = record {
  ephemeral_pubkey = replicate 32 7;
  not_before = 5;
  not_after = 9;
  epoch = none;
  peer_fp = none;
  scope = some "search:*";
  confinement_digest = some (replicate 32 7);
}

claims_parsed : parse_claims_json thirty_two (some document) ≡ ok claims
unfolding parse_claims_json decode_32 confinement_digest_of field_of b64decode replace_all
claims_parsed = refl
