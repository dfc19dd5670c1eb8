-- ===== src/Routes/Disclosure/Paging.antt =====
-- src/routes/disclosure.ts: the page that a request gets, and where the next one starts.
use cloister.Prelude.{
  ℕ, ◌+◌, ◌-◌, String, Option, none, some, List, ltb, length, take, drop, map, or_else,
  if◌then◌else◌,
}
use cloister.Prelude.Keys.{string_eq}
use cloister.Table.{select}
use cloister.Storage.PeerAttestations.{PeerAttestation, of_peer}
use cloister.Storage.PendingAttestations.{PendingAttestation}
use cloister.Storage.DisclosureCursor.{CursorRuntime, sign_cursor}
use cloister.TrustStore.{TrustStore}
use cloister.TrustStore.Rpc.{rpc_list_pending_for_peer}
use cloister.Routes.LeaseMiddleware.Types.{Runtime}
use cloister.Routes.Disclosure.Records.{Disclosed, stream, attestation_record, pending_record}
use cloister.Routes.Disclosure.{
  DisclosureRequest, DisclosureEnv, read_env_string, default_page_size, signed_next,
}

-- The attestations of a peer, in the order in which they were written.
abbrev pub chain_of : TrustStore → String → List PeerAttestation
chain_of trust peer_fp = select (of_peer peer_fp) trust.peer_attestations

module _ (hmac_key_binding master_key_binding : String) (rt : Runtime) (CryptoKey : Type 0)
    (crypto : CursorRuntime CryptoKey) (env : DisclosureEnv) where
  -- The page of a start: the rows of the chain from there on, up to a hundred, and where more are left a
  -- cursor that is signed for the peer, with the number of the first of them.
  abbrev pub page_from : TrustStore → DisclosureRequest → String → CryptoKey → ℕ → Disclosed
  page_from trust request peer_fp key from_seq =
      let left = drop (from_seq - 1) (chain_of trust peer_fp) in
      stream
        (record {
          peer_fingerprint = peer_fp;
          master_public_key = or_else (read_env_string env master_key_binding) "";
          next_cursor =
              if ltb default_page_size (length left)
              then some (
                  sign_cursor CryptoKey crypto
                    (record {
                      peer_fp = peer_fp;
                      from_seq = from_seq - 1 + default_page_size + 1;
                      ts = request.signed_at;
                    })
                    key)
              else none;
        })
        (map (attestation_record rt.btoa) (take default_page_size left))
        (map pending_record (rpc_list_pending_for_peer trust peer_fp))

  -- Where the page after one of `left` rows from the k-th on starts.
  abbrev start_after : ℕ → ℕ → Option ℕ
  start_after k left = if ltb default_page_size left then some (k + default_page_size + 1) else none

  abbrev made :
      CryptoKey
      → DisclosureRequest
      → String
      → Option ℕ
      → List PeerAttestation
      → List PendingAttestation
      → Disclosed
  made key request peer_fp next rows pending =
      stream
        (record {
          peer_fingerprint = peer_fp;
          master_public_key = or_else (read_env_string env master_key_binding) "";
          next_cursor =
              signed_next hmac_key_binding master_key_binding rt CryptoKey crypto env key request
                peer_fp next;
        })
        (map (attestation_record rt.btoa) rows) (map pending_record pending)
