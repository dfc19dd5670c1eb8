-- ===== src/Routes/Disclosure.antt =====
-- src/routes/disclosure.ts: the disclosure of a peer's chain, with the gate before it.
pub mod Records
pub mod Rows
pub mod Paging
pub mod Hidden
mod Tests
use cloister.Prelude.{
  ℕ, ◌+◌, ◌&&◌, String, Bool, true, false, Option, none, some, List, [], ◌∷◌, length, ltb, map,
  take, or_else, is_some, if◌then◌else◌,
}
use cloister.Prelude.Keys.{◌==◌, nat_eq, string_eq}
use cloister.Prelude.Results.{Result, ok, err}
use cloister.Prelude.Text.{◌&◌}
use cloister.Storage.CaBundleCache.{Cache, Fetched}
use cloister.Storage.PeerAttestations.{PeerAttestation}
use cloister.Storage.PendingAttestations.{PendingAttestation}
use cloister.Storage.DisclosureCursor.{
  CursorPayload, CursorRuntime, sign_cursor, verify_cursor, import_hmac_key,
  constant_time_error_body_len,
}
use cloister.TrustStore.{TrustStore, peer_has_chain}
use cloister.TrustStore.Rpc.{rpc_list_attestations_for_peer, rpc_list_pending_for_peer}
use cloister.Routes.LeaseGate.{Env}
use cloister.Routes.Hop.{Hop}
use cloister.Routes.LeaseMiddleware.Headers.{AuthHeaders}
use cloister.Routes.LeaseMiddleware.Types.{Runtime, LeaseRequest, Failure}
use cloister.Routes.LeaseMiddleware.{GateVerdict, off, pass, reject, gate_and_verify}
use cloister.Routes.Disclosure.Records.{
  HeaderRecord, Disclosed, constant_time_error, stream, attestation_record, pending_record,
}

abbrev pub default_page_size : ℕ
default_page_size = 100

-- A request, the groups of its URL, what the authority would answer meanwhile, the fate of the gate's call
-- of the TrustStore, the time at the gate and the later one at which a cursor is signed. `fp` is the pattern's group, and `since` the parameter.
pub record DisclosureRequest : Type 0 where
  pub method : String
  pub url : String
  pub headers : AuthHeaders
  pub fp : Option String
  pub since : Option String
  pub fetch : Fetched
  pub lease_call : Hop
  pub now_ms : ℕ
  pub signed_at : ℕ

-- The environment of the gate, and its text bindings by their names.
pub record DisclosureEnv : Type 0 where
  pub gate : Env
  pub binding : String → Option String

-- `typeof v === "string" && v.length > 0 ? v : undefined`
abbrev nonempty : Option String → Option String
nonempty none = none
nonempty (some v) = if v == "" then none else some v

abbrev pub read_env_string : DisclosureEnv → String → Option String
read_env_string env binding = if binding == "" then none else nonempty (env.binding binding)

pub data RejectReason : Type 0 where
  not_found denied bad_cursor : RejectReason

-- `rejectReason ??= ...`
infixl 30 ◌unless_set◌
abbrev pub ◌unless_set◌ : Option RejectReason → Option RejectReason → Option RejectReason
some reason unless_set next = some reason
none unless_set next = next

abbrev pub reject_if : Bool → RejectReason → Option RejectReason
reject_if true reason = some reason
reject_if false reason = none

abbrev pub is_reject : GateVerdict → Bool
is_reject off = false
is_reject (pass lease) = false
is_reject (reject code message) = true

-- An exception that nothing catches.
pub data DisclosureThrown : Type 0 where
  lease_threw : Failure → DisclosureThrown
  key_threw : DisclosureThrown

abbrev pub constant_time_error_response : RejectReason → Disclosed
constant_time_error_response kind = constant_time_error constant_time_error_body_len

-- The page, and where the next one starts, if more rows follow.
abbrev pub page_rows : List PeerAttestation → ℕ → List PeerAttestation
page_rows attestations limit =
    if ltb limit (length attestations) then take limit attestations else attestations

abbrev pub last_seq : List PeerAttestation → ℕ
last_seq [] = 0
last_seq (a ∷ []) = a.seq
last_seq (a ∷ b ∷ rows) = last_seq (b ∷ rows)

abbrev pub next_seq : List PeerAttestation → ℕ → Option ℕ
next_seq attestations limit =
    if ltb limit (length attestations)
    then some (last_seq (page_rows attestations limit) + 1)
    else none

-- The rows that the route reads for a page: one more than it gives.
abbrev pub fetched_rows : TrustStore → String → ℕ → List PeerAttestation
fetched_rows trust peer_fp from_seq =
    rpc_list_attestations_for_peer trust peer_fp from_seq (default_page_size + 1)

unfoldable pub matches : DisclosureRequest → Bool
matches request = request.method == "GET" && is_some request.fp

-- The options of the constructor: the names of the two bindings.
module _ (hmac_key_binding master_key_binding : String) (rt : Runtime) (CryptoKey : Type 0)
    (crypto : CursorRuntime CryptoKey) (env : DisclosureEnv) where
  abbrev pub lease_request : DisclosureRequest → String → LeaseRequest
  lease_request request peer_fp = record {
    http_method = request.method;
    url = request.url;
    headers = request.headers;
    body = "";
    method = "disclosure";
    params = record { name = none; repo = none };
    requested_scope = some ("disclosure:" & peer_fp);
    lease_call = request.lease_call;
  }

  -- The decoded cursor must be of the peer of the URL.
  abbrev pub scoped : String → Result (Unit {0}) CursorPayload → Result RejectReason ℕ
  scoped peer_fp (err why) = err bad_cursor
  scoped peer_fp (ok decoded) =
      if decoded.peer_fp == peer_fp then ok decoded.from_seq else err bad_cursor

  abbrev pub from_seq_of : CryptoKey → String → Option String → Result RejectReason ℕ
  from_seq_of key peer_fp none = ok 0
  from_seq_of key peer_fp (some cursor) =
      if cursor == "" then ok 0 else scoped peer_fp (verify_cursor CryptoKey crypto cursor key)

  abbrev pub signed_next : CryptoKey → DisclosureRequest → String → Option ℕ → Option String
  signed_next key request peer_fp none = none
  signed_next key request peer_fp (some seq) = some (
      sign_cursor CryptoKey crypto
        (record { peer_fp = peer_fp; from_seq = seq; ts = request.signed_at }) key)

  -- The page; the master key is the empty text where its binding is not there.
  unfoldable pub stream_page :
      CryptoKey
      → DisclosureRequest
      → String
      → List PeerAttestation
      → List PendingAttestation
      → Disclosed
  stream_page key request peer_fp [] [] = constant_time_error_response not_found
  stream_page key request peer_fp attestations pending =
      stream
        (record {
          peer_fingerprint = peer_fp;
          master_public_key = or_else (read_env_string env master_key_binding) "";
          next_cursor = signed_next key request peer_fp (next_seq attestations default_page_size);
        })
        (map (attestation_record rt.btoa) (page_rows attestations default_page_size))
        (map pending_record pending)

  abbrev pub early_reason : String → GateVerdict → Option RejectReason
  early_reason peer_fp verdict =
      reject_if (peer_fp == "") not_found unless_set reject_if (is_reject verdict) denied

  -- After every check: the existence of the chain is asked whatever they found.
  abbrev pub found :
      TrustStore → CryptoKey → DisclosureRequest → String → Bool → Result RejectReason ℕ → Disclosed
  found trust key request peer_fp has_chain (err reason) = constant_time_error_response reason
  found trust key request peer_fp false (ok from_seq) = constant_time_error_response not_found
  found trust key request peer_fp true (ok from_seq) =
      stream_page key request peer_fp (fetched_rows trust peer_fp from_seq)
        (rpc_list_pending_for_peer trust peer_fp)

  abbrev pub decided :
      TrustStore → CryptoKey → DisclosureRequest → String → Bool → Option RejectReason → Disclosed
  decided trust key request peer_fp has_chain (some reason) = constant_time_error_response reason
  decided trust key request peer_fp has_chain none =
      found trust key request peer_fp has_chain (from_seq_of key peer_fp request.since)

  abbrev pub keyed :
      TrustStore
      → DisclosureRequest
      → String
      → Option RejectReason
      → Option CryptoKey
      → Result DisclosureThrown Disclosed
  keyed trust request peer_fp reason none = err key_threw
  keyed trust request peer_fp reason (some key) =
      ok (decided trust key request peer_fp (peer_has_chain trust peer_fp) reason)

  -- With no key the request is refused, for the first reason.
  abbrev pub with_key :
      TrustStore
      → DisclosureRequest
      → String
      → Option RejectReason
      → Option String
      → Result DisclosureThrown Disclosed
  with_key trust request peer_fp reason none =
      ok (constant_time_error_response (or_else (reason unless_set some denied) denied))
  with_key trust request peer_fp reason (some hmac_key_b64) =
      keyed trust request peer_fp reason (import_hmac_key CryptoKey crypto hmac_key_b64)

  abbrev pub judged :
      DisclosureRequest
      → String
      → (Cache × TrustStore) × Result Failure GateVerdict
      → (Cache × TrustStore) × Result DisclosureThrown Disclosed
  judged request peer_fp ((cache, trust), err failure) = ((cache, trust), err (lease_threw failure))
  judged request peer_fp ((cache, trust), ok verdict) = (
    (cache, trust),
    with_key trust request peer_fp (early_reason peer_fp verdict)
        (read_env_string env hmac_key_binding),
  )

  -- `m?.pathname.groups.fp ?? ""`
  abbrev pub peer_of : DisclosureRequest → String
  peer_of request = or_else request.fp ""

  abbrev pub disclosure_verdict :
      Cache × TrustStore → DisclosureRequest → (Cache × TrustStore) × Result Failure GateVerdict
  disclosure_verdict state request =
      gate_and_verify rt env.gate state request.fetch request.now_ms
        (lease_request request (peer_of request)) false

  unfoldable pub handle :
      Cache × TrustStore
      → DisclosureRequest
      → (Cache × TrustStore) × Result DisclosureThrown Disclosed
  unfolding stream_page
  handle state request = judged request (peer_of request) (disclosure_verdict state request)
