-- ===== src/Routes/LeaseMiddleware/Tests.antt =====
-- A runtime, an environment and requests.
use cloister.Prelude.{
  ℕ, ◌≡◌, ◌≢◌, ◌↔◌, ◌⊎◌, ◌∙◌, refl, String, true, false, none, some, List, [], ◌∷◌, arith,
  replicate,
}
use cloister.Prelude.Chars.{
  b64decode, b64encode, cut_at, trim, trim_start, trim_end, replace_all, parse_int, digits_from,
}
use cloister.Prelude.Lines.{Lacks}
use cloister.Prelude.Text.{decimal, decimal_from, hex}
use cloister.Prelude.Results.{ok, err}
use cloister.Table.{find}
use cloister.Storage.CaBundleCache.{
  CaBundle, Cache, fetch_threw, fetch_null, fetched, is_cert_epoch_current, resolve_ca_bundle,
  get_ca_bundle, dev_ca_bundle, refetch, checked,
}
use cloister.Storage.CaBundleCache.Trust.{Pins, IsGood, AllGood, resolved_bundles_lem}
use cloister.Wire.SignetVerify.{
  Document, object, number, string, verify_cert_chain, parse_claims_json, field_of, decode_32,
  confinement_digest_of,
}
use cloister.TrustStore.{TrustStore}
use cloister.TrustStore.Lease.{is_replay, accepted_state}
use cloister.Routes.Hop.{reached, reply_lost}
use cloister.Routes.LeaseGate.{Env, is_truthy, lease_enforced, resolve_lease_gate}
use cloister.Routes.LeaseMiddleware.Headers.{parse_auth_headers}
use cloister.Routes.LeaseMiddleware.Scope.{derive_request_scope, scope_allows, wildcard_prefix}
use cloister.Routes.LeaseMiddleware.Scope.Grants.{Grants, scope_allows_iff}
use cloister.Routes.LeaseMiddleware.Types.{
  Runtime, LeaseRequest, VerifiedLease, Failure, deny, rpc_threw, err_clock_skew,
}
use cloister.Routes.LeaseMiddleware.Certificate.{
  check_certificate, bundle_master_pubkeys, b64_std_decode, key_for, verify_chain, required_claims,
}
use cloister.Routes.LeaseMiddleware.{
  off, pass, authorize, read_headers, check_request, check_signature, canonical_request_text,
  cert_fingerprint, lease_args, verify_and_upsert_lease, gate_and_verify,
}
use cloister.Routes.LeaseMiddleware.Canonical.{canonical_request_text-injective}
use cloister.Routes.LeaseMiddleware.Checks.{IsAuthorized}
use cloister.Routes.LeaseMiddleware.Store.{
  IsUnanswered, record_lease_lem, record_lease-reply_lost, accepted_lem, rejected_lem,
}
use cloister.Routes.LeaseMiddleware.Once.{Event, request, sweep, handle_all, accepted_once}
use cloister.Routes.LeaseMiddleware.Gate.{
  IsPassed, IsRecordedUnanswered, gate_pass_lem, gate_fails_closed,
}

-- Every text decodes to 32 bytes, and every signature is good.
abbrev claims : Document
claims = object (
    ("epk", string "a2V5")
    ∷ ("nb", number 0)
    ∷ ("na", number 10)
    ∷ ("ep", number 3)
    ∷ ("pf", string "peer")
    ∷ ("sc", string "search:*")
    ∷ [])

abbrev runtime : Runtime
runtime = record {
  atob = λ s. some (replicate 32 7);
  btoa = λ bytes. "bm9uY2U=";
  json_parse = λ s. some claims;
  sha256 = λ bytes. 171 ∷ [];
  sha256_text = λ s. 205 ∷ [];
  leyline_verify_cert_path = λ cert master. some "{}";
  ed25519_verify = λ key sig text. ok true;
  verify_bundle_signature = λ bundle root. true;
}

abbrev empty : TrustStore
empty = record {
  lease_counters = [];
  seen_nonces = [];
  pending_attestations = [];
  peer_attestations = [];
  registry_tags = [];
  registry_blob_membership = [];
  peer_receipts = [];
  actor_ca_bundle = [];
  alarm_at = none;
}

abbrev bundle : CaBundle
bundle = record {
  epoch = 3;
  seqno = 1;
  keys = ("k1", "a2V5") ∷ [];
  key_id = "k1";
  prev_key_id = none;
  issued_at = 0;
  signature = "c2ln";
}

abbrev call : LeaseRequest
call = record {
  http_method = "POST";
  url = "https://cloister.test/mcp";
  headers = record {
    authorization = some "Signet Y2VydA";
    x_signet_sig = some "c2ln";
    x_signet_ts = some "1000";
    x_signet_nonce = some "bm9uY2U";
  };
  body = "{}";
  method = "tools/call";
  params = record { name = some "search"; repo = some "cloister" };
  requested_scope = none;
  lease_call = reached;
}

abbrev lease : VerifiedLease
lease = record {
  peer_fp = "peer";
  scope = "search:*";
  epoch = 3;
  cert_fp = "ab";
  nonce = replicate 32 7;
  server_ts = 1500;
  cert_der = replicate 32 7;
  sig = replicate 32 7;
  confinement_digest = none;
}

call_authorized : authorize runtime call bundle 1500 ≡ ok lease
unfolding authorize read_headers check_certificate check_request bundle_master_pubkeys
    b64_std_decode key_for verify_chain required_claims check_signature canonical_request_text
    cert_fingerprint parse_auth_headers b64decode cut_at trim trim_start trim_end replace_all
    parse_int digits_from verify_cert_chain parse_claims_json field_of decode_32
    confinement_digest_of is_cert_epoch_current derive_request_scope scope_allows wildcard_prefix
    hex
call_authorized = refl

fresh : is_replay empty (lease_args runtime lease) ≡ false
unfolding find
fresh = refl

abbrev accepted : TrustStore
accepted = accepted_state (runtime.sha256_text) empty (lease_args runtime lease)

accepted_run : verify_and_upsert_lease runtime empty call bundle 1500 ≡ (accepted, ok lease)
unfolding verify_and_upsert_lease
accepted_run = rw call_authorized (record_lease_lem runtime empty lease ∙ rw fresh refl)

accepted_example :
    IsAuthorized runtime call bundle 1500 lease
    × (is_replay empty (lease_args runtime lease) ≡ false)
    × (accepted ≡ accepted_state (runtime.sha256_text) empty (lease_args runtime lease))
accepted_example = accepted_lem runtime empty accepted call bundle 1500 lease accepted_run

-- The tolerance is a minute.
abbrev late_failure : Failure
late_failure = deny err_clock_skew "client timestamp skew 61000ms exceeds tolerance (±60000ms)"

late : authorize runtime call bundle 62000 ≡ err late_failure
unfolding authorize read_headers parse_auth_headers b64decode cut_at trim trim_start trim_end
    replace_all parse_int digits_from decimal decimal_from
late = refl

call_late : verify_and_upsert_lease runtime empty call bundle 62000 ≡ (empty, err late_failure)
unfolding verify_and_upsert_lease
call_late = rw late refl

-- The TrustStore records the lease, and its answer is lost.
abbrev unanswered : LeaseRequest
unanswered = record call { lease_call = reply_lost "disconnected" }

unanswered_authorized : authorize runtime unanswered bundle 1500 ≡ ok lease
unfolding authorize read_headers check_certificate check_request bundle_master_pubkeys
    b64_std_decode key_for verify_chain required_claims check_signature canonical_request_text
    cert_fingerprint parse_auth_headers b64decode cut_at trim trim_start trim_end replace_all
    parse_int digits_from verify_cert_chain parse_claims_json field_of decode_32
    confinement_digest_of is_cert_epoch_current derive_request_scope scope_allows wildcard_prefix
    hex
unanswered_authorized = refl

unanswered_run :
    verify_and_upsert_lease runtime empty unanswered bundle 1500
    ≡ (accepted, err (rpc_threw "disconnected"))
unfolding verify_and_upsert_lease
unanswered_run = rw unanswered_authorized (
    record_lease-reply_lost runtime empty "disconnected" lease
    ∙ rw (record_lease_lem runtime empty lease, fresh) refl)

rejected_example :
    (accepted ≡ empty)
    ⊎ IsUnanswered runtime empty accepted unanswered bundle 1500 (rpc_threw "disconnected")
rejected_example =
    rejected_lem runtime empty accepted unanswered bundle 1500 (rpc_threw "disconnected")
      unanswered_run

-- Another request and a sweep come between.
abbrev events : List Event
events =
    request (record call { body = "other" }) bundle 2000
    ∷ sweep (record { nonces_throw = false; receipts_throw = true }) 3000 3001
    ∷ []

accepted_once_example :
    (verify_and_upsert_lease runtime
      (handle_all runtime accepted events)
      (record call { url = "https://elsewhere.test/" })
      bundle
      4000).1
    ≢ ok lease
accepted_once_example =
    accepted_once runtime empty accepted call (record call { url = "https://elsewhere.test/" })
      bundle bundle 1500 4000 lease lease events tt accepted_run
      (omega arith, (omega arith, omega arith)) refl

abbrev production : Env
production = record {
  cloister_mode = none;
  dev_ca_master = none;
  interlace_root_pubkey = some "cm9vdA";
  dev_ca_epoch = none;
}

production-Pins : Pins production "cm9vdA"
production-Pins = record { no_master = refl; pinned = refl; nonempty = refl }

-- The first call fetches the bundle.
call_passes :
    gate_and_verify runtime production (none, empty) (fetched bundle) 1500 call false
    ≡ ((some (record { bundle = bundle; fetched_at_ms = 1500 }), accepted), ok (pass lease))
unfolding gate_and_verify lease_enforced resolve_lease_gate resolve_ca_bundle dev_ca_bundle
    get_ca_bundle refetch checked
call_passes = rw accepted_run refl

gate_pass_example :
    (b : CaBundle) × IsGood
      (runtime.verify_bundle_signature)
      "cm9vdA"
      ((fetched bundle, 1500) ∷ [])
      1500
      (ok b)
    × IsPassed runtime empty accepted call b 1500 lease
gate_pass_example =
    gate_pass_lem runtime production "cm9vdA" [] none empty (fetched bundle) 1500 call false
      (some (record { bundle = bundle; fetched_at_ms = 1500 }), accepted) lease production-Pins tt
      call_passes

gate_fails_closed_example :
    let after =
      gate_and_verify runtime production (none, empty) (fetched bundle) 1500 unanswered false in
    let resolved =
      resolve_ca_bundle (runtime.verify_bundle_signature) production none (fetched bundle) 1500 in
    (((l : VerifiedLease) × (after.1 ≡ ok (pass l)))
      ⊎ ((after.0.1 ≡ empty) ⊎ IsRecordedUnanswered runtime empty unanswered 1500 resolved.1 after))
    × (after.1 ≡ ok off
        → (production.cloister_mode ≡ some "dev")
          × (is_truthy production.dev_ca_master ≡ false)
          × (is_truthy production.interlace_root_pubkey ≡ false)
          × (false ≡ false))
gate_fails_closed_example =
    gate_fails_closed runtime production none empty (fetched bundle) 1500 unanswered false

resolved_bundles_example :
    AllGood
      (runtime.verify_bundle_signature)
      "cm9vdA"
      production
      []
      none
      ((fetched bundle, 1000) ∷ (fetch_null, 2000) ∷ (fetch_threw, 300000) ∷ [])
resolved_bundles_example =
    resolved_bundles_lem (runtime.verify_bundle_signature) "cm9vdA" production
      ((fetched bundle, 1000) ∷ (fetch_null, 2000) ∷ (fetch_threw, 300000) ∷ []) production-Pins

-- The cache holds a bundle of four minutes ago, and the authority does not answer.
abbrev old : Cache
old = some (record { bundle = bundle; fetched_at_ms = 1000 })

scope_allows_example :
    (scope_allows "search:*" "search:cloister" ≡ true) ↔ Grants "search:*" "search:cloister"
scope_allows_example = scope_allows_iff "search:*" "search:cloister"

abbrev verb : String
verb = "GET"

abbrev path : String
path = "/a"

abbrev body : String
body = "x\ny"

same_text :
    canonical_request_text runtime verb path 7 [] body
    ≡ canonical_request_text runtime verb path 7 (1 ∷ []) body
unfolding canonical_request_text b64encode
same_text = refl

btoa_plain : (bytes : List ℕ) → Lacks b'\n' (runtime.btoa bytes)
btoa_plain bytes = (refl, (refl, (refl, (refl, (refl, (refl, (refl, (refl, tt))))))))

verb_plain : Lacks b'\n' verb
verb_plain = (refl, (refl, (refl, tt)))

path_plain : Lacks b'\n' path
path_plain = (refl, (refl, tt))

canonical_example :
    (verb ≡ verb)
    × (path ≡ path)
    × (decimal 7 ≡ decimal 7)
    × (b64encode (runtime.btoa) [] ≡ b64encode (runtime.btoa) (1 ∷ []))
    × (body ≡ body)
canonical_example =
    canonical_request_text-injective runtime verb verb path path 7 7 [] (1 ∷ []) body body
      btoa_plain verb_plain verb_plain path_plain path_plain same_text
