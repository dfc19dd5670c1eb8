-- ===== src/Storage/DisclosureCursor/Signed.antt =====
-- src/storage/disclosure-cursor.ts: a cursor that is accepted was signed.
use cloister.Prelude.{ℕ, ◌≡◌, ap, subst, String, true, Option, none, some, List}
use cloister.Prelude.Keys.{◌==◌, ==_iff, string_eq}
use cloister.Prelude.Results.{ok, bind-ok, guard-ok, ok-injective}
use cloister.Prelude.Text.{◌&◌}
use cloister.Prelude.Chars.{b64decode}
use cloister.Wire.SignetVerify.{Document}
use cloister.Storage.DisclosureCursor.{
  CursorPayload, CursorRuntime, cursor_version, or_null, three_parts, payload_of, header_and_body,
  checked_payload, verify_cursor,
}

or_null-ok {ℓ} : {A : Type ℓ} (o : Option A) (a : A) → or_null o ≡ ok a → o ≡ some a
or_null-ok none a h = cc
or_null-ok (some b) a h = ap some (ok-injective h)

module _ (CryptoKey : Type 0) (rt : CursorRuntime CryptoKey) (key : CryptoKey) where
  -- The body of the cursor gives the payload, and the HMAC over the version and the body holds.
  pub record IsSigned (payload : CursorPayload) : Type 0 where
    pub body : String
    pub mac : List ℕ
    pub bytes : List ℕ
    pub document : Document
    pub holds : rt.verify key mac (header_and_body CryptoKey rt body) ≡ true
    pub decoded : b64decode rt.atob body ≡ some bytes
    pub parsed : rt.json_parse (rt.decode_text bytes) ≡ some document
    pub read : payload_of document ≡ ok payload

  parts-IsSigned :
      (parts : String × String × String) (payload : CursorPayload)
      → checked_payload CryptoKey rt key parts ≡ ok payload
      → IsSigned payload
  parts-IsSigned (version, body, sig) payload h =
      let (current, h₁) = guard-ok (version == cursor_version) tt h in
      let (mac, m, h₂) = bind-ok (or_null (b64decode rt.atob sig)) h₁ in
      let (holds, h₃) = guard-ok (rt.verify key mac (version & "." & body)) tt h₂ in
      let (bytes, b, h₄) = bind-ok (or_null (b64decode rt.atob body)) h₃ in
      let (document, d, read) = bind-ok (or_null (rt.json_parse (rt.decode_text bytes))) h₄ in
      record {
        body = body;
        mac = mac;
        bytes = bytes;
        document = document;
        holds =
            subst (λ v. rt.verify key mac (v & "." & body) ≡ true)
              ((==_iff version cursor_version).0 current) holds;
        decoded = or_null-ok _ bytes b;
        parsed = or_null-ok _ document d;
        read = read;
      }

  pub verify_cursor-IsSigned :
      (cursor : String) (payload : CursorPayload)
      → verify_cursor CryptoKey rt cursor key ≡ ok payload
      → IsSigned payload
  unfolding verify_cursor
  verify_cursor-IsSigned cursor payload h =
      let (parts, p, h₁) = bind-ok (or_null (three_parts cursor)) h in
      parts-IsSigned parts payload h₁
