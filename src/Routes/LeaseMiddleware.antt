-- ===== src/Routes/LeaseMiddleware.antt =====
-- src/routes/lease-middleware.ts: the verification of a lease, from the headers of a request to the
-- TrustStore, and the gate in front of the routes. Base64, JSON, the digest, the certificate check and
-- Ed25519 are the runtime's, gathered in a record.
pub mod Headers
pub mod Scope
pub mod Types
pub mod Certificate
pub mod Canonical
pub mod Checks
pub mod Store
pub mod Once
pub mod Gate
mod Tests
use cloister.Prelude.{
  ℕ, ◌+◌, ◌-◌, ◌/◌, String, Bool, true, false, not, ◌&&◌, ◌||◌, Option, none, some, List, [], ◌∷◌,
  ltb, length, or_else, if◌then◌else◌,
}
use cloister.Prelude.Keys.{◌==◌, nat_eq, string_eq}
use cloister.Prelude.Results.{Result, ok, err, ◌>>=◌, ◌>>◌, guard}
use cloister.Prelude.Text.{◌&◌, hex, decimal}
use cloister.Prelude.Chars.{b64encode}
use cloister.Storage.PeerLeaseCounters.{ChainError}
use cloister.Storage.CaBundleCache.{
  CaBundle, Cache, Fetched, CaUnavailable, is_cert_epoch_current, resolve_ca_bundle,
}
use cloister.Wire.SignetVerify.{
  Document, CertClaims, ChainFailure, refused, type_error, verify_cert_chain,
}
use cloister.TrustStore.{
  TrustStore, LeaseArgs, LeaseVerdict, replayed, advanced, verify_lease_and_advance_chain,
}
use cloister.Routes.LeaseGate.{Env, lease_enforced}
use cloister.Routes.Hop.{Hop, reached, lost, reply_lost}
use cloister.Routes.LeaseMiddleware.Types.{
  Runtime, LeaseErrorCode, err_unauthenticated, err_scope_denied, err_bad_request_sig, err_replay,
  err_ca_unavailable, err_epoch_mismatch, err_clock_skew, max_clock_skew_ms, VerifyError, Failure,
  denied, bad_key_base64, claims_type_error, chain_integrity, rpc_threw, LeaseRequest,
  VerifiedLease, deny, lease_http_status,
}
use cloister.Routes.LeaseMiddleware.Certificate.{Certified, check_certificate}
use cloister.Routes.LeaseMiddleware.Headers.{
  AuthHeaders, ParsedAuthHeaders, kind, parse_auth_headers,
}
use cloister.Routes.LeaseMiddleware.Scope.{Params, derive_request_scope, scope_allows}

-- `Math.abs(a - b)`
abbrev pub distance : ℕ → ℕ → ℕ
distance a b = (a - b) + (b - a)

-- `verifyRequestSignature`: an exception counts as a signature that does not verify.
unfoldable pub check_signature : Result String Bool → Result Failure (Unit {0})
check_signature (ok valid) = guard valid (deny err_bad_request_sig "request signature invalid")
check_signature (err reason) = err (
    deny err_bad_request_sig (
      if reason == "" then "request signature invalid" else "request signature invalid: " & reason))

pub data GateVerdict : Type 0 where
  off : GateVerdict
  pass : VerifiedLease → GateVerdict
  reject : LeaseErrorCode → String → GateVerdict

-- A verdict, or an exception that is not caught.
abbrev pub verdict_of : Result Failure VerifiedLease → Result Failure GateVerdict
verdict_of (ok lease) = ok (pass lease)
verdict_of (err (denied e)) = ok (reject e.code e.message)
verdict_of (err bad_key_base64) = err bad_key_base64
verdict_of (err claims_type_error) = err claims_type_error
verdict_of (err (chain_integrity e)) = err (chain_integrity e)
verdict_of (err (rpc_threw message)) = err (rpc_threw message)

module _ (rt : Runtime) where
  unfoldable pub canonical_request_text : String → String → ℕ → List ℕ → String → String
  canonical_request_text method url ts nonce body =
      method
      & ("\n" & (url & ("\n" & (decimal ts & ("\n" & (b64encode rt.btoa nonce & ("\n" & body)))))))

  unfoldable pub cert_fingerprint : List ℕ → String
  cert_fingerprint cert_der = hex (rt.sha256 cert_der)

  -- `if ("kind" in headers) return ...`
  unfoldable pub read_headers : AuthHeaders → Result Failure ParsedAuthHeaders
  read_headers req = elim (parse_auth_headers rt.atob req) [
    | ok headers ↦ ok headers
    | err e ↦ err (deny err_unauthenticated ("lease auth header malformed: " & kind e))
  ]

  -- Steps 6 and 7: the request's signature and its scope.
  unfoldable pub check_request :
      LeaseRequest → ParsedAuthHeaders → Certified → Result Failure (Unit {0})
  check_request args headers certified = do
    let canonical =
        canonical_request_text args.http_method args.url headers.ts headers.nonce args.body
    check_signature (rt.ed25519_verify certified.claims.ephemeral_pubkey headers.sig canonical)
    let requested = or_else args.requested_scope (derive_request_scope args.method args.params)
    guard (scope_allows certified.scope requested) (
        deny err_scope_denied
          ("cert scope '" & certified.scope & "' does not allow '" & requested & "'"))

  -- `return { peerFp, ... }`
  abbrev pub lease_of : ParsedAuthHeaders → Certified → ℕ → VerifiedLease
  lease_of headers certified now_ms = record {
    peer_fp = certified.peer_fp;
    scope = certified.scope;
    epoch = certified.epoch;
    cert_fp = cert_fingerprint headers.cert_der;
    nonce = headers.nonce;
    server_ts = now_ms;
    cert_der = headers.cert_der;
    sig = headers.sig;
    confinement_digest = certified.claims.confinement_digest;
  }

  -- Steps 1 to 7, which read no state: what the lease will be.
  unfoldable pub authorize : LeaseRequest → CaBundle → ℕ → Result Failure VerifiedLease
  authorize args bundle now_ms = do
    headers ← read_headers args.headers
    let skew_ms = distance now_ms headers.ts
    guard (not (ltb max_clock_skew_ms skew_ms)) (
        deny err_clock_skew
          ("client timestamp skew " & decimal skew_ms & "ms exceeds tolerance (±60000ms)"))
    certified ← check_certificate rt headers.cert_der bundle now_ms
    check_request args headers certified
    ok (lease_of headers certified now_ms)

  -- What the TrustStore is asked.
  abbrev pub lease_args : VerifiedLease → LeaseArgs
  lease_args lease = record {
    peer_fp = lease.peer_fp;
    cert_fp = lease.cert_fp;
    nonce = b64encode rt.btoa lease.nonce;
    ts = lease.server_ts;
  }

  -- What the TrustStore's answer means.
  abbrev pub settle_lease :
      TrustStore
      → VerifiedLease
      → Result ChainError (TrustStore × LeaseVerdict)
      → TrustStore × Result Failure VerifiedLease
  settle_lease store lease (err e) = (store, err (chain_integrity e))
  settle_lease store lease (ok (store', replayed)) = (
    store',
    err (deny err_replay "request envelope replayed (cert_fp, nonce) tuple already seen"),
  )
  settle_lease store lease (ok (store', advanced seq last_chain_hash)) = (store', ok lease)

  -- The call of the TrustStore, which nothing catches: it may throw before its effect or after it.
  abbrev pub called :
      TrustStore
      → Hop
      → VerifiedLease
      → Result ChainError (TrustStore × LeaseVerdict)
      → TrustStore × Result Failure VerifiedLease
  called store reached lease answered = settle_lease store lease answered
  called store (lost message) lease answered = (store, err (rpc_threw message))
  called store (reply_lost message) lease answered =
      ((settle_lease store lease answered).0, err (rpc_threw message))

  -- Steps 8 and 9: the replay check and the counter, in one call.
  unfoldable pub record_lease :
      TrustStore → Hop → VerifiedLease → TrustStore × Result Failure VerifiedLease
  record_lease store lease_call lease =
      called store lease_call lease
        (verify_lease_and_advance_chain rt.sha256_text store (lease_args lease))

  abbrev pub upsert_if_authorized :
      TrustStore → Hop → Result Failure VerifiedLease → TrustStore × Result Failure VerifiedLease
  upsert_if_authorized store lease_call (err failure) = (store, err failure)
  upsert_if_authorized store lease_call (ok lease) = record_lease store lease_call lease

  unfoldable pub verify_and_upsert_lease :
      TrustStore → LeaseRequest → CaBundle → ℕ → TrustStore × Result Failure VerifiedLease
  verify_and_upsert_lease store args bundle now_ms =
      upsert_if_authorized store args.lease_call (authorize args bundle now_ms)

  -- With the bundle, or without one.
  abbrev pub verify_with :
      TrustStore
      → ℕ
      → LeaseRequest
      → Cache × Result CaUnavailable CaBundle
      → (Cache × TrustStore) × Result Failure GateVerdict
  verify_with store now_ms verify (cache, err why) =
      ((cache, store), ok (reject err_ca_unavailable "CA bundle unavailable"))
  verify_with store now_ms verify (cache, ok bundle) =
      let after = verify_and_upsert_lease store verify bundle now_ms in
      ((cache, after.0), verdict_of after.1)

  -- The state is the isolate's cache and the TrustStore. `fetch` is what the authority would answer.
  unfoldable pub gate_and_verify :
      Env
      → Cache × TrustStore
      → Fetched
      → ℕ
      → LeaseRequest
      → Bool
      → (Cache × TrustStore) × Result Failure GateVerdict
  gate_and_verify env (cache, store) fetch now_ms verify deny_when_off =
      if not (lease_enforced env)
      then (
        (cache, store),
        if deny_when_off then ok (reject err_unauthenticated "authentication required") else ok off,
      )
      else verify_with store now_ms verify
          (resolve_ca_bundle rt.verify_bundle_signature env cache fetch now_ms)
