-- ===== src/Routes/Disclosure/Tests.antt =====
-- A store with one attestation, and a request for it.
use cloister.Prelude.{
  ℕ, zero, suc, ◌+◌, String, Option, ◌≡◌, ◌⊎◌, refl, true, false, none, some, List, [], ◌∷◌,
  if◌then◌else◌,
}
use cloister.Prelude.Keys.{◌==◌, string_eq}
use cloister.Prelude.Chars.{cut_at, b64decode, replace_all}
use cloister.Prelude.Results.{ok}
use cloister.Prelude.Sort.{sort, insert}
use cloister.Table.{select, exists}
use cloister.Storage.CaBundleCache.{fetch_null}
use cloister.Storage.PeerAttestations.{PeerAttestation, list_attestations_for_peer}
use cloister.Storage.PendingAttestations.{list_pending_for_peer}
use cloister.Storage.DisclosureCursor.{CursorRuntime, import_hmac_key, verify_cursor, three_parts}
use cloister.TrustStore.{TrustStore, peer_has_chain}
use cloister.TrustStore.Rpc.{rpc_list_attestations_for_peer, rpc_list_pending_for_peer}
use cloister.Wire.SignetVerify.{object, number, string}
use cloister.Routes.Hop.{reached}
use cloister.Routes.LeaseGate.{lease_enforced, resolve_lease_gate}
use cloister.Routes.LeaseMiddleware.{gate_and_verify}
use cloister.Routes.LeaseMiddleware.Types.{Runtime}
use cloister.Routes.Disclosure.Records.{Disclosed, stream, constant_time_error, attestation_record}
use cloister.Routes.Disclosure.{
  DisclosureRequest, DisclosureEnv, disclosure_verdict, stream_page, handle,
}
use cloister.Routes.Disclosure.Hidden.{IsRefusal, IsAllowed, handle-IsAllowed}

abbrev runtime : Runtime
runtime = record {
  atob = λ s. none;
  btoa = λ bytes. "";
  json_parse = λ s. none;
  sha256 = λ bytes. [];
  sha256_text = λ s. [];
  leyline_verify_cert_path = λ cert master. none;
  ed25519_verify = λ key sig text. ok false;
  verify_bundle_signature = λ bundle root. false;
}

-- A key is the bytes of its text, and no signature is good.
abbrev crypto : CursorRuntime (List ℕ)
crypto = record {
  import_key = λ bytes. some bytes;
  sign = λ key text. key;
  verify = λ key sig text. false;
  atob = λ s. some (7 ∷ []);
  btoa = λ bytes. "Bw==";
  encode_text = λ s. [];
  decode_text = λ bytes. "";
  json_parse = λ s. none;
  json_string = λ s. s;
}

abbrev development : DisclosureEnv
development = record {
  gate = record {
    cloister_mode = some "dev";
    dev_ca_master = none;
    interlace_root_pubkey = none;
    dev_ca_epoch = none;
  };
  binding = λ name. if name == "HMAC_KEY" then some "Bw" else none;
}

abbrev row : PeerAttestation
row = record {
  peer_fingerprint = "p";
  seq = 1;
  prev_self_ref = none;
  prev_peer_ref = none;
  content_hash = "h1";
  content_type = "bead";
  scope = "write:*";
  cert = [];
  sig = [];
  created_at = 10;
  bead_id = none;
  origins = none;
}

abbrev store : TrustStore
store = record {
  lease_counters = [];
  seen_nonces = [];
  pending_attestations = [];
  peer_attestations = row ∷ [];
  registry_tags = [];
  registry_blob_membership = [];
  peer_receipts = [];
  actor_ca_bundle = [];
  alarm_at = none;
}

abbrev request : DisclosureRequest
request = record {
  method = "GET";
  url = "https://cloister.test/interlace/peers/p";
  headers = record {
    authorization = none;
    x_signet_sig = none;
    x_signet_ts = none;
    x_signet_nonce = none;
  };
  fp = some "p";
  since = none;
  fetch = fetch_null;
  lease_call = reached;
  now_ms = 5;
  signed_at = 6;
}

abbrev page : Disclosed
page =
    stream (record { peer_fingerprint = "p"; master_public_key = ""; next_cursor = none })
      (attestation_record runtime.btoa row ∷ []) []

given_page :
    (handle "HMAC_KEY" "ROOT" runtime (List ℕ) crypto development (none, store) request).1 ≡ ok page
unfolding handle gate_and_verify lease_enforced resolve_lease_gate import_hmac_key b64decode
    replace_all peer_has_chain exists stream_page rpc_list_attestations_for_peer
    list_attestations_for_peer sort insert select rpc_list_pending_for_peer list_pending_for_peer
given_page = refl

unknown_peer :
    (handle "HMAC_KEY" "ROOT" runtime
      (List ℕ)
      crypto
      development
      (none, store)
      (record request { fp = some "q" })).1
    ≡ ok (constant_time_error 256)
unfolding handle gate_and_verify lease_enforced resolve_lease_gate import_hmac_key b64decode
    replace_all peer_has_chain exists
unknown_peer = refl

bad_cursor :
    (handle "HMAC_KEY" "ROOT" runtime
      (List ℕ)
      crypto
      development
      (none, store)
      (record request { since = some "v1.YQ.YQ" })).1
    ≡ ok (constant_time_error 256)
unfolding handle gate_and_verify lease_enforced resolve_lease_gate import_hmac_key b64decode
    replace_all peer_has_chain exists verify_cursor three_parts cut_at
bad_cursor = refl

handle-IsAllowed_example :
    IsRefusal "HMAC_KEY" "ROOT" runtime (List ℕ) crypto development page
    ⊎ IsAllowed "HMAC_KEY" "ROOT" runtime
        (List ℕ)
        crypto
        development
        request
        "p"
        (disclosure_verdict "HMAC_KEY" "ROOT" runtime
          (List ℕ)
          crypto
          development
          (none, store)
          request)
        page
handle-IsAllowed_example =
    handle-IsAllowed "HMAC_KEY" "ROOT" runtime (List ℕ) crypto development (none, store) request
      page given_page

-- A chain of 250 rows, and a request with a cursor for the 101st.
rows_from : ℕ → ℕ → Option String → List PeerAttestation
rows_from zero seq ref = []
rows_from (suc n) seq ref =
    record row { seq = seq + 1; prev_self_ref = ref } ∷ rows_from n (seq + 1) (some "h1")

abbrev long_store : TrustStore
long_store = record store { peer_attestations = rows_from 250 0 none }

abbrev signing : CursorRuntime (List ℕ)
signing = record crypto {
  verify = λ key sig text. true;
  json_parse =
      λ s. some (object (("fromSeq", number 101) ∷ ("peerFp", string "p") ∷ ("ts", number 6) ∷ []));
}

abbrev second : DisclosureRequest
second = record request { since = some "v1.YQ.YQ" }
