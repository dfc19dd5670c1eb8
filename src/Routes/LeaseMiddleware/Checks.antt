-- ===== src/Routes/LeaseMiddleware/Checks.antt =====
-- src/routes/lease-middleware.ts: the checks before the TrustStore is asked.
use cloister.Prelude.{
  ℕ, ◌≤◌, ◌/◌, ◌≡◌, refl, sym, subst, ap, ◌∙◌, Bool, true, false, not, ◌||◌, ◌⊎◌, inl, inr, some,
  none, Option, List, String, arith, ltb, length, or_else,
}
use cloister.Prelude.Keys.{◌==◌, nat_eq}
use cloister.Prelude.Results.{
  Result, ok, err, bind-ok, guard-ok, passed-ok, then-ok, ok-injective, Result-cases,
}
use cloister.Storage.CaBundleCache.{CaBundle, is_cert_epoch_current}
use cloister.Wire.SignetVerify.{CertClaims}
use cloister.Routes.LeaseMiddleware.Headers.{AuthHeaders, ParsedAuthHeaders, parse_auth_headers}
use cloister.Routes.LeaseMiddleware.Scope.{derive_request_scope, scope_allows}
use cloister.Routes.LeaseMiddleware.Types.{Runtime, LeaseRequest, VerifiedLease, max_clock_skew_ms}
use cloister.Routes.LeaseMiddleware.Certificate.{
  Certified, required_claims, bundle_master_pubkeys, chain_of, verify_chain, check_certificate,
}
use cloister.Routes.LeaseMiddleware.{
  distance, check_signature, canonical_request_text, read_headers, check_request, lease_of,
  authorize,
}

module _ (rt : Runtime) where
  -- One of the two keys of the bundle.
  abbrev pub IsMaster : CaBundle → List ℕ → Type 0
  IsMaster bundle key =
      (keys : List ℕ × Option (List ℕ)) × (bundle_master_pubkeys rt bundle ≡ ok keys)
      × ((key ≡ keys.0) ⊎ (keys.1 ≡ some key))

  -- A certificate that a key of the bundle signed, with the three claims, of a current epoch and valid
  -- at the time.
  pub record IsCertified (cert_der : List ℕ) (bundle : CaBundle) (now_ms : ℕ) (c : Certified)
      : Type 0 where
    pub master : List ℕ
    pub trusted : IsMaster bundle master
    pub chained : chain_of rt cert_der master ≡ ok c.claims
    pub claimed :
        (c.claims.epoch ≡ some c.epoch)
        × (c.claims.peer_fp ≡ some c.peer_fp)
        × (c.claims.scope ≡ some c.scope)
    pub current : is_cert_epoch_current c.epoch bundle ≡ true
    pub valid : (c.claims.not_before ≤ now_ms / 1000) × (now_ms / 1000 ≤ c.claims.not_after)

  -- What the source's documentation asks of a request.
  pub record IsAuthorized (args : LeaseRequest) (bundle : CaBundle) (now_ms : ℕ)
      (lease : VerifiedLease) : Type 0 where
    pub headers : ParsedAuthHeaders
    pub certified : Certified
    pub parsed : parse_auth_headers rt.atob args.headers ≡ ok headers
    pub in_time : distance now_ms headers.ts ≤ max_clock_skew_ms
    pub certificate : IsCertified headers.cert_der bundle now_ms certified
    pub signed :
        rt.ed25519_verify certified.claims.ephemeral_pubkey headers.sig
          (canonical_request_text rt args.http_method args.url headers.ts headers.nonce args.body)
        ≡ ok true
    pub allowed :
        scope_allows certified.scope
          (or_else args.requested_scope (derive_request_scope args.method args.params))
        ≡ true
    pub reported : lease ≡ lease_of rt headers certified now_ms

  read_headers-ok :
      (req : AuthHeaders) (headers : ParsedAuthHeaders)
      → read_headers rt req ≡ ok headers
      → parse_auth_headers rt.atob req ≡ ok headers
  unfolding read_headers
  read_headers-ok req headers h = ground arith

  verify_chain-ok :
      (cert_der : List ℕ) (keys : List ℕ × Option (List ℕ)) (claims : CertClaims)
      → verify_chain rt cert_der keys.0 keys.1 ≡ ok claims
      → (key : List ℕ) × ((key ≡ keys.0) ⊎ (keys.1 ≡ some key))
        × (chain_of rt cert_der key ≡ ok claims)
  unfolding verify_chain
  verify_chain-ok cert_der (active, none) claims h = (active, inl refl, ground arith)
  verify_chain-ok cert_der (active, some key) claims h =
      elim (Result-cases (chain_of rt cert_der active)) [
        | inl (c, e) ↦ (active, inl refl, ground (arith, e))
        | inr (why, e) ↦ (key, inr refl, ground (arith, e))
      ]

  required_claims-ok :
      (claims : CertClaims) (c : Certified)
      → required_claims claims ≡ ok c
      → (claims ≡ c.claims)
        × (c.claims.epoch ≡ some c.epoch)
        × (c.claims.peer_fp ≡ some c.peer_fp)
        × (c.claims.scope ≡ some c.scope)
  unfolding required_claims
  required_claims-ok claims c h = ground arith

  check_signature-ok : (r : Result String Bool) → check_signature r ≡ ok tt → r ≡ ok true
  unfolding check_signature
  check_signature-ok (ok true) h = refl
  check_signature-ok (ok false) h = cc
  check_signature-ok (err reason) h = cc

  check_certificate-ok :
      (cert_der : List ℕ) (bundle : CaBundle) (now_ms : ℕ) (c : Certified)
      → check_certificate rt cert_der bundle now_ms ≡ ok c
      → IsCertified cert_der bundle now_ms c
  unfolding check_certificate
  check_certificate-ok cert_der bundle now_ms c h =
      let (keys, masters, h₁) = bind-ok (bundle_master_pubkeys rt bundle) h in
      let (nonempty, h₂) = guard-ok (not (length keys.0 == 0)) _ h₁ in
      let (claims, chained, h₃) = bind-ok (verify_chain rt cert_der keys.0 keys.1) h₂ in
      let (c', required, h₄) = bind-ok (required_claims claims) h₃ in
      let (current, h₅) = guard-ok (is_cert_epoch_current c'.epoch bundle) _ h₄ in
      let sec : ℕ = now_ms / 1000 in
      let (valid, same) =
        guard-ok (not (ltb sec claims.not_before || ltb claims.not_after sec)) _ h₅ in
      let (is_claims, has_epoch, has_peer, has_scope) = required_claims-ok claims c' required in
      let (key, trusted, by_key) = verify_chain-ok cert_der keys claims chained in
      subst (IsCertified cert_der bundle now_ms) (ok-injective same) (record {
        master = key;
        trusted = (keys, masters, trusted);
        chained = by_key ∙ ap ok is_claims;
        claimed = (has_epoch, has_peer, has_scope);
        current = current;
        valid = subst (λ d. (d.not_before ≤ sec) × (sec ≤ d.not_after)) is_claims (ground arith);
      })

  pub authorize-ok :
      (args : LeaseRequest) (bundle : CaBundle) (now_ms : ℕ) (lease : VerifiedLease)
      → authorize rt args bundle now_ms ≡ ok lease
      → IsAuthorized args bundle now_ms lease
  unfolding authorize check_request
  authorize-ok args bundle now_ms lease h =
      let (headers, parsed, h₁) = bind-ok (read_headers rt args.headers) h in
      let (in_time, h₂) =
        guard-ok (not (ltb max_clock_skew_ms (distance now_ms headers.ts))) _ h₁ in
      let (c, certified, h₃) = bind-ok (check_certificate rt headers.cert_der bundle now_ms) h₂ in
      let (checks, reported) = then-ok (check_request rt args headers c) h₃ in
      let (signed, h₄) =
        then-ok
          (check_signature (
            rt.ed25519_verify c.claims.ephemeral_pubkey headers.sig (
              canonical_request_text rt args.http_method args.url headers.ts headers.nonce
                args.body)))
          checks in
      record {
        headers = headers;
        certified = c;
        parsed = read_headers-ok args.headers headers parsed;
        in_time = ground arith;
        certificate = check_certificate-ok headers.cert_der bundle now_ms c certified;
        signed = check_signature-ok _ signed;
        allowed = passed-ok _ _ h₄;
        reported = ok-injective (sym reported);
      }
