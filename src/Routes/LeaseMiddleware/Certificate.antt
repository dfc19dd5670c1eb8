-- ===== src/Routes/LeaseMiddleware/Certificate.antt =====
-- src/routes/lease-middleware.ts: the keys of the bundle and the check of the certificate.
use cloister.Prelude.{
  ℕ, ◌/◌, String, not, ◌||◌, Option, none, some, List, [], ◌∷◌, ltb, length, or_else, if◌then◌else◌,
}
use cloister.Prelude.Keys.{◌==◌, nat_eq, string_eq}
use cloister.Prelude.Results.{Result, ok, err, ◌>>=◌, ◌>>◌, guard}
use cloister.Prelude.Text.{◌&◌, decimal}
use cloister.Storage.CaBundleCache.{CaBundle, is_cert_epoch_current}
use cloister.Wire.SignetVerify.{CertClaims, ChainFailure, refused, type_error, verify_cert_chain}
use cloister.Routes.LeaseMiddleware.Types.{
  Runtime, Failure, bad_key_base64, claims_type_error, deny, err_unauthenticated,
  err_ca_unavailable, err_epoch_mismatch,
}

-- `keys[kid]`
unfoldable pub key_for : String → List (String × String) → Option String
key_for kid [] = none
key_for kid ((k, key) ∷ keys) = if k == kid then some key else key_for kid keys

abbrev pub chain_denial : ChainFailure → Failure
chain_denial (refused reason) = deny err_unauthenticated ("cert chain verify failed: " & reason)
chain_denial type_error = claims_type_error

-- Claims with the three that are required.
pub record Certified : Type 0 where
  pub claims : CertClaims
  pub epoch : ℕ
  pub peer_fp : String
  pub scope : String

unfoldable pub required_claims : CertClaims → Result Failure Certified
required_claims claims =
    let missing =
      deny err_unauthenticated "cert missing required Interlace claims (epoch, peer_fp, scope)" in
    elim claims.epoch [
      | none ↦ err missing
      | some epoch ↦ elim claims.peer_fp [
        | none ↦ err missing
        | some peer_fp ↦ elim claims.scope [
          | none ↦ err missing
          | some scope ↦
              ok (record { claims = claims; epoch = epoch; peer_fp = peer_fp; scope = scope })
        ]
      ]
    ]

module _ (rt : Runtime) where
  unfoldable pub b64_std_decode : String → Result Failure (List ℕ)
  b64_std_decode s =
      if s == ""
      then ok []
      else elim (rt.atob s) [ none ↦ err bad_key_base64 | some bytes ↦ ok bytes ]

  -- The previous key, if the bundle names one that it has.
  abbrev pub prev_master_pubkey : CaBundle → Result Failure (Option (List ℕ))
  prev_master_pubkey bundle = elim bundle.prev_key_id [
    | none ↦ ok none
    | some prev_key_id ↦ elim (key_for prev_key_id bundle.keys) [
      | none ↦ ok none
      | some prev ↦ elim (b64_std_decode prev) [
        | ok bytes ↦ ok (some bytes)
        | err thrown ↦ err thrown
      ]
    ]
  ]

  unfoldable pub bundle_master_pubkeys : CaBundle → Result Failure (List ℕ × Option (List ℕ))
  bundle_master_pubkeys bundle = do
    active ← b64_std_decode (or_else (key_for bundle.key_id bundle.keys) "")
    prev ← prev_master_pubkey bundle
    ok (active, prev)

  abbrev pub chain_of : List ℕ → List ℕ → Result ChainFailure CertClaims
  chain_of = verify_cert_chain rt.atob rt.json_parse rt.leyline_verify_cert_path

  -- The active key first, then the previous one.
  unfoldable pub verify_chain : List ℕ → List ℕ → Option (List ℕ) → Result Failure CertClaims
  verify_chain cert_der active prev = elim (chain_of cert_der active) [
    | ok claims ↦ ok claims
    | err type_error ↦ err claims_type_error
    | err (refused reason) ↦ elim prev [
      | none ↦ err (chain_denial (refused reason))
      | some key ↦ elim (chain_of cert_der key) [
        | ok claims ↦ ok claims
        | err why ↦ err (chain_denial why)
      ]
    ]
  ]

  -- Steps 2 to 5: the claims of a certificate that is trusted, current and valid.
  unfoldable pub check_certificate : List ℕ → CaBundle → ℕ → Result Failure Certified
  check_certificate cert_der bundle now_ms = do
    (active, prev) ← bundle_master_pubkeys bundle
    guard (not (length active == 0))
        (deny err_ca_unavailable "CA bundle missing active master pubkey")
    claims ← verify_chain cert_der active prev
    certified ← required_claims claims
    guard (is_cert_epoch_current certified.epoch bundle) (
        deny err_epoch_mismatch (
          "cert.epoch="
          & decimal certified.epoch
          & " not current (bundle.epoch="
          & decimal bundle.epoch
          & ")"))
    let now_sec = now_ms / 1000
    guard (not (ltb now_sec claims.not_before || ltb claims.not_after now_sec)) (
        deny err_unauthenticated (
          "cert outside validity window (now="
          & decimal now_sec
          & ", ["
          & decimal claims.not_before
          & ","
          & decimal claims.not_after
          & "])"))
    ok certified
