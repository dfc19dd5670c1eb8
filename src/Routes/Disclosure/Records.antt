-- ===== src/Routes/Disclosure/Records.antt =====
-- src/routes/disclosure.ts: the records of the stream, before they are printed as lines of JSON.
use cloister.Prelude.{ℕ, String, Bool, Option, List}
use cloister.Prelude.Keys.{◌==◌, nat_eq}
use cloister.Storage.PeerAttestations.{PeerAttestation}
use cloister.Storage.PendingAttestations.{PendingAttestation, max_safe_integer}

pub record HeaderRecord : Type 0 where
  pub peer_fingerprint : String
  pub master_public_key : String
  pub next_cursor : Option String

pub record AttestationRecord : Type 0 where
  pub seq : ℕ
  pub prev_self_ref : Option String
  pub prev_peer_ref : Option String
  pub content_hash : String
  pub content_type : String
  pub scope : String
  pub cert_b64 : String
  pub sig_b64 : String
  pub created_at : ℕ

pub record PendingRecord : Type 0 where
  pub content_hash : String
  pub scope : String
  pub attempts : ℕ
  pub next_retry_at : ℕ
  pub exhausted : Bool
  pub created_at : ℕ
  pub last_attempt_at : Option ℕ

-- `b64Std` is `btoa`.
module _ (btoa : List ℕ → String) where
  abbrev pub attestation_record : PeerAttestation → AttestationRecord
  attestation_record a = record {
    seq = a.seq;
    prev_self_ref = a.prev_self_ref;
    prev_peer_ref = a.prev_peer_ref;
    content_hash = a.content_hash;
    content_type = a.content_type;
    scope = a.scope;
    cert_b64 = btoa a.cert;
    sig_b64 = btoa a.sig;
    created_at = a.created_at;
  }

abbrev pub pending_record : PendingAttestation → PendingRecord
pending_record p = record {
  content_hash = p.content_hash;
  scope = p.scope;
  attempts = p.attempts;
  next_retry_at = p.next_retry_at;
  exhausted = p.next_retry_at == max_safe_integer;
  created_at = p.created_at;
  last_attempt_at = p.last_attempt_at;
}

-- The response that every refusal gives: 404, with as many zeros as its length; or the stream.
pub data Disclosed : Type 0 where
  constant_time_error : (length : ℕ) → Disclosed
  stream : HeaderRecord → List AttestationRecord → List PendingRecord → Disclosed
