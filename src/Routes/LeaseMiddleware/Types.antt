-- ===== src/Routes/LeaseMiddleware/Types.antt =====
-- src/routes/lease-middleware.ts: the requests, leases and errors of the verification.
use cloister.Prelude.{ℕ, String, Bool, Option, List}
use cloister.Prelude.Results.{Result}
use cloister.Storage.PeerLeaseCounters.{ChainError}
use cloister.Storage.CaBundleCache.{CaBundle}
use cloister.Wire.SignetVerify.{Document}
use cloister.Routes.Hop.{Hop}
use cloister.Routes.LeaseMiddleware.Headers.{AuthHeaders}
use cloister.Routes.LeaseMiddleware.Scope.{Params}

-- What the runtime and the libraries compute. `sha256_text` is the digest of a text's UTF-8 form,
-- `ed25519_verify` the import of the key and the check of a signature over a text's UTF-8 form, or
-- the message with which one of them throws.
pub record Runtime : Type 0 where
  pub atob : String → Option (List ℕ)
  pub btoa : List ℕ → String
  pub json_parse : String → Option Document
  pub sha256 : List ℕ → List ℕ
  pub sha256_text : String → List ℕ
  pub leyline_verify_cert_path : List ℕ → List ℕ → Option String
  pub ed25519_verify : List ℕ → List ℕ → String → Result String Bool
  pub verify_bundle_signature : CaBundle → String → Bool

pub data LeaseErrorCode : Type 0 where
  err_unauthenticated err_scope_denied err_bad_request_sig err_replay : LeaseErrorCode
  err_ca_unavailable err_epoch_mismatch err_clock_skew : LeaseErrorCode

abbrev pub max_clock_skew_ms : ℕ
max_clock_skew_ms = 60000

pub record VerifyError : Type 0 where
  pub code : LeaseErrorCode
  pub message : String

-- What ends a verification early: an error that is returned, or an exception that is not caught.
pub data Failure : Type 0 where
  denied : VerifyError → Failure
  bad_key_base64 claims_type_error : Failure
  chain_integrity : ChainError → Failure
  rpc_threw : (message : String) → Failure

-- The request as the verification reads it: `params` is read only for `tools/call`. `lease_call` is what
-- becomes of the call of the TrustStore that the verification makes.
pub record LeaseRequest : Type 0 where
  pub http_method : String
  pub url : String
  pub headers : AuthHeaders
  pub body : String
  pub method : String
  pub params : Params
  pub requested_scope : Option String
  pub lease_call : Hop

pub record VerifiedLease : Type 0 where
  pub peer_fp : String
  pub scope : String
  pub epoch : ℕ
  pub cert_fp : String
  pub nonce : List ℕ
  pub server_ts : ℕ
  pub cert_der : List ℕ
  pub sig : List ℕ
  pub confinement_digest : Option (List ℕ)

-- `return { code, message }`
abbrev pub deny : LeaseErrorCode → String → Failure
deny code message = denied (record { code = code; message = message })

abbrev pub lease_http_status : LeaseErrorCode → ℕ
lease_http_status err_scope_denied = 403
lease_http_status err_ca_unavailable = 503
lease_http_status err_epoch_mismatch = 503
lease_http_status err_unauthenticated = 401
lease_http_status err_bad_request_sig = 401
lease_http_status err_replay = 401
lease_http_status err_clock_skew = 401
