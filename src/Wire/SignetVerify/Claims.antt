-- ===== src/Wire/SignetVerify/Claims.antt =====
-- src/wire/signet-verify.ts: what accepted claims carry.
use cloister.Prelude.{
  ℕ, ◌≡◌, refl, sym, ap, subst, ◌∙◌, ◌⊎◌, inl, inr, String, Option, none, some, List, length,
}
use cloister.Prelude.Keys.{◌==◌, ==_iff, nat_eq}
use cloister.Prelude.Results.{ok, bind-ok, guard-ok, ok-injective}
use cloister.Prelude.Chars.{b64decode}
use cloister.Wire.SignetVerify.{
  Json, Document, CertClaims, field_of, fields_of, as_string, as_number, required, decode_32,
  confinement_digest_of, parse_claims_json,
}

module _ (atob : String → Option (List ℕ)) where
  required-ok :
      {A : Type 0} (reason : String) (o : Option A) {a : A} → required reason o ≡ ok a → o ≡ some a
  required-ok reason none h = cc
  required-ok reason (some b) h = cc

  decode_32-ok :
      (e f raw : String) (bytes : List ℕ)
      → decode_32 atob e f raw ≡ ok bytes
      → (b64decode atob raw ≡ some bytes) × (length bytes ≡ 32)
  unfolding decode_32
  decode_32-ok e f raw bytes h =
      let (found, read, h₁) = bind-ok (required e (b64decode atob raw)) h in
      let (sized, same) = guard-ok (length found == 32) _ h₁ in
      subst (λ b. (b64decode atob raw ≡ some b) × (length b ≡ 32)) (ok-injective same)
        (required-ok e (b64decode atob raw) read, (==_iff (length found) 32).0 sized)

  -- The commitment is the 32 bytes of the field, and is missing only where the field is.
  abbrev pub Commits : Option Json → Option (List ℕ) → Type 0
  Commits cd digest =
      ((cd ≡ none) × (digest ≡ none))
      ⊎ ((raw : String) × (bytes : List ℕ) × (as_string cd ≡ some raw)
          × (b64decode atob raw ≡ some bytes)
          × (length bytes ≡ 32)
          × (digest ≡ some bytes))

  confinement-Commits :
      (cd : Option Json) (digest : Option (List ℕ))
      → confinement_digest_of atob cd ≡ ok digest
      → Commits cd digest
  unfolding confinement_digest_of
  confinement-Commits none digest h = inl (refl, sym (ok-injective h))
  confinement-Commits (some cd) digest h =
      let (raw, is_text, h₁) =
        bind-ok (required "claims cd present but not a string" (as_string (some cd))) h in
      let (bytes, decoded, same) =
        bind-ok
          (decode_32 atob "claims cd not valid base64url"
            "claims cd wrong length (expected 32 bytes BLAKE3-256)" raw)
          h₁ in
      let (read, sized) =
        decode_32-ok "claims cd not valid base64url"
          "claims cd wrong length (expected 32 bytes BLAKE3-256)" raw bytes decoded in
      inr (
        raw,
        bytes,
        required-ok "claims cd present but not a string" (as_string (some cd)) is_text,
        read,
        sized,
        sym (ok-injective same),
      )

  -- Claims that are accepted come from an object; their key is 32 bytes, their two times and three
  -- optional claims are the object's fields, and the confinement digest is missing only where the
  -- object has no `cd`: a `cd` that is not the base64url of 32 bytes refuses the claims.
  pub parse_claims_lem :
      (json : Option Document) (claims : CertClaims)
      → parse_claims_json atob json ≡ ok claims
      → (document : Document) × (fields : List (String × Json)) × (json ≡ some document)
        × (fields_of document ≡ ok fields)
        × (length claims.ephemeral_pubkey ≡ 32)
        × (as_number (field_of "nb" fields) ≡ some claims.not_before)
        × (as_number (field_of "na" fields) ≡ some claims.not_after)
        × (as_number (field_of "ep" fields) ≡ claims.epoch)
        × (as_string (field_of "pf" fields) ≡ claims.peer_fp)
        × (as_string (field_of "sc" fields) ≡ claims.scope)
        × Commits (field_of "cd" fields) claims.confinement_digest
  unfolding parse_claims_json
  parse_claims_lem json claims h =
      let (document, parsed, h₁) = bind-ok (required "claims JSON parse failed" json) h in
      let (fields, is_object, h₂) = bind-ok (fields_of document) h₁ in
      let (epk, has_epk, h₃) =
        bind-ok (required "claims missing epk" (as_string (field_of "epk" fields))) h₂ in
      let (nb, has_nb, h₄) =
        bind-ok (required "claims missing nb" (as_number (field_of "nb" fields))) h₃ in
      let (na, has_na, h₅) =
        bind-ok (required "claims missing na" (as_number (field_of "na" fields))) h₄ in
      let (key, is_key, h₆) =
        bind-ok
          (decode_32 atob "claims epk not valid base64url"
            "claims epk wrong length (expected 32 bytes Ed25519)" epk)
          h₅ in
      let (digest, commits, same) =
        bind-ok (confinement_digest_of atob (field_of "cd" fields)) h₆ in
      let made = ok-injective same in
      (
        document,
        fields,
        required-ok "claims JSON parse failed" json parsed,
        is_object,
        subst (λ k. length k ≡ 32) (ap (λ c. c.ephemeral_pubkey) made)
            (decode_32-ok "claims epk not valid base64url"
              "claims epk wrong length (expected 32 bytes Ed25519)" epk key is_key).1,
        required-ok "claims missing nb" (as_number (field_of "nb" fields)) has_nb
            ∙ ap (λ c. some c.not_before) made,
        required-ok "claims missing na" (as_number (field_of "na" fields)) has_na
            ∙ ap (λ c. some c.not_after) made,
        ap (λ c. c.epoch) made,
        ap (λ c. c.peer_fp) made,
        ap (λ c. c.scope) made,
        subst (Commits (field_of "cd" fields)) (ap (λ c. c.confinement_digest) made)
            (confinement-Commits (field_of "cd" fields) digest commits),
      )
