-- ===== src/Storage/DisclosureCursor.antt =====
-- src/storage/disclosure-cursor.ts: the signed cursors of the disclosure route. The key's type and the
-- functions on it are the runtime's.
pub mod Signed
use cloister.Prelude.{ℕ, String, Bool, true, false, Option, none, some, List, [], ◌∷◌, map}
use cloister.Prelude.Keys.{◌==◌, string_eq}
use cloister.Prelude.Results.{Result, ok, err, ◌>>=◌, ◌>>◌, guard}
use cloister.Prelude.Text.{◌&◌, decimal}
use cloister.Prelude.Chars.{cut_at, b64encode, b64decode}
use cloister.Prelude.Sort.{sort}
use cloister.Storage.RegistryTags.{text_le}
use cloister.Wire.SignetVerify.{
  Json, Document, null, object, no_object, field_of, as_string, as_number,
}

pub record CursorPayload : Type 0 where
  pub peer_fp : String
  pub from_seq : ℕ
  pub ts : ℕ

-- `sign` and `verify` are the HMAC over a text's UTF-8 form; `json_string` is `JSON.stringify` of a text.
module _ (CryptoKey : Type 0) where
  pub record CursorRuntime : Type 0 where
    pub import_key : List ℕ → Option CryptoKey
    pub sign : CryptoKey → String → List ℕ
    pub verify : CryptoKey → List ℕ → String → Bool
    pub atob : String → Option (List ℕ)
    pub btoa : List ℕ → String
    pub encode_text : String → List ℕ
    pub decode_text : List ℕ → String
    pub json_parse : String → Option Document
    pub json_string : String → String

-- `v${CURSOR_VERSION}`
abbrev pub cursor_version : String
cursor_version = "v1"

-- `parts.join(",")`
unfoldable pub join_parts : List String → String
join_parts [] = ""
join_parts (part ∷ []) = part
join_parts (part ∷ next ∷ parts) = part & "," & join_parts (next ∷ parts)

-- The three parts of a text that has two dots.
abbrev last_part :
    String → String → String → Option (String × String) → Option (String × String × String)
last_part version body sig none = some (version, body, sig)
last_part version body sig (some more) = none

abbrev second_part : String → Option (String × String) → Option (String × String × String)
second_part version none = none
second_part version (some (body, sig)) = last_part version body sig (cut_at b'.' sig)

abbrev first_part : Option (String × String) → Option (String × String × String)
first_part none = none
first_part (some (version, rest)) = second_part version (cut_at b'.' rest)

-- `cursor.split(".")`, where it has three parts
unfoldable pub three_parts : String → Option (String × String × String)
three_parts cursor = first_part (cut_at b'.' cursor)

-- `null`, for whatever reason
abbrev pub or_null {ℓ} : {A : Type ℓ} → Option A → Result (Unit {0}) A
or_null none = err tt
or_null (some a) = ok a

abbrev members : Document → List (String × Json)
members (object fields) = fields
members null = []
members no_object = []

abbrev payload_of : Document → Result (Unit {0}) CursorPayload
payload_of document = do
  peer_fp ← or_null (as_string (field_of "peerFp" (members document)))
  from_seq ← or_null (as_number (field_of "fromSeq" (members document)))
  ts ← or_null (as_number (field_of "ts" (members document)))
  ok (record { peer_fp = peer_fp; from_seq = from_seq; ts = ts })

module _ (CryptoKey : Type 0) (rt : CursorRuntime CryptoKey) where
  -- The keys are sorted, each with its printed value.
  unfoldable pub canonical_json : List (String × String) → String
  unfolding join_parts
  canonical_json fields =
      "{"
      & join_parts
          (map (λ f. rt.json_string f.0 & ":" & f.1) (sort (λ f g. text_le f.0 g.0) fields))
      & "}"

  abbrev pub payload_fields : CursorPayload → List (String × String)
  payload_fields payload =
      ("peerFp", rt.json_string payload.peer_fp)
      ∷ ("fromSeq", decimal payload.from_seq)
      ∷ ("ts", decimal payload.ts)
      ∷ []

  -- What the HMAC covers.
  abbrev pub header_and_body : String → String
  header_and_body body = cursor_version & "." & body

  unfoldable pub sign_cursor : CursorPayload → CryptoKey → String
  unfolding canonical_json
  sign_cursor payload key =
      let signed =
        header_and_body
          (b64encode rt.btoa (rt.encode_text (canonical_json (payload_fields payload)))) in
      signed & "." & b64encode rt.btoa (rt.sign key signed)

  -- Exceptions are caught, and give `null` too.
  abbrev pub checked_payload :
      CryptoKey → String × String × String → Result (Unit {0}) CursorPayload
  checked_payload key (version, body, sig) = do
    guard (version == cursor_version) tt
    mac ← or_null (b64decode rt.atob sig)
    guard (rt.verify key mac (version & "." & body)) tt
    bytes ← or_null (b64decode rt.atob body)
    document ← or_null (rt.json_parse (rt.decode_text bytes))
    payload_of document

  unfoldable pub verify_cursor : String → CryptoKey → Result (Unit {0}) CursorPayload
  unfolding three_parts
  verify_cursor cursor key = do parts ← or_null (three_parts cursor); checked_payload key parts

  unfoldable pub import_hmac_key : String → Option CryptoKey
  import_hmac_key raw_key_b64 = elim (b64decode rt.atob raw_key_b64) [
    | none ↦ none
    | some bytes ↦ rt.import_key bytes
  ]

-- The length of every refusal's body.
abbrev pub constant_time_error_body_len : ℕ
constant_time_error_body_len = 256
