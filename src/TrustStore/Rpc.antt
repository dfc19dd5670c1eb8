-- ===== src/TrustStore/Rpc.antt =====
-- The RPC methods that pass on to one table, and the gates that read them.
use cloister.Prelude.{ℕ, String, Bool, true, false, Option, none, List}
use cloister.Prelude.Results.{Result, ok, ◌>>=◌}
use cloister.Storage.SeenNonces.{record_seen_nonce, prune_seen_nonces_before}
use cloister.Storage.PeerLeaseCounters.{PeerLeaseCounter, read_lease_counter}
use cloister.Storage.PendingAttestations.{
  PendingAttestation, EnqueueArgs, enqueue_pending, commit_pending, record_failed_attempt,
  list_pending_for_peer,
}
use cloister.Storage.PeerAttestations.{
  PeerAttestation, AttestationArgs, ApplyAttestationResult, prev_self_ref_mismatch, SqlError,
  apply_attestation, last_attestation_for_peer, list_attestations_for_peer, attestations_for_bead,
  find_attestation_by_content,
}
use cloister.Storage.RegistryTags.{
  upsert_tag, get_manifest_digest_for_tag, list_tags_for_repo, list_repos,
}
use cloister.Storage.RegistryMembership.{
  MembershipKind, record_membership, has_membership, list_repos_with_membership,
}
use cloister.Storage.PeerReceipts.{
  Direction, PeerReceiptRow, PruneResult, upsert_peer_receipt, find_peer_receipt,
  list_receipts_for_actor_epoch, prune_expired_receipts,
}
use cloister.Storage.ActorCaBundle.{
  ActorCaBundleEntry, upsert_actor_ca_bundle, get_actor_ca_bundle, list_actor_ca_bundle_epochs,
  attach_compromise_notice,
}
use cloister.TrustStore.{TrustStore}

module _ (this : TrustStore) where
  unfoldable pub get_lease_counter : String → Option PeerLeaseCounter
  get_lease_counter peer_fp = read_lease_counter this.lease_counters peer_fp

  unfoldable pub rpc_record_seen_nonce : String → String → ℕ → TrustStore × Bool
  rpc_record_seen_nonce cert_fp nonce ts_ms =
      let (sql, fresh) = record_seen_nonce this.seen_nonces cert_fp nonce ts_ms in
      (record this { seen_nonces = sql }, fresh)

  unfoldable pub prune_seen_nonces : ℕ → TrustStore × ℕ
  prune_seen_nonces before_ts_ms =
      let (sql, deleted) = prune_seen_nonces_before this.seen_nonces before_ts_ms in
      (record this { seen_nonces = sql }, deleted)

  -- `fault` is the test-only seam, false in production.
  unfoldable pub rpc_apply_attestation :
      Bool → AttestationArgs → Result SqlError (TrustStore × ApplyAttestationResult)
  rpc_apply_attestation true args = ok (
    this,
    prev_self_ref_mismatch "test-injected applyAttestation failure (cloister-fff647)" none none,
  )
  rpc_apply_attestation false args = do
    (sql, result) ← apply_attestation this.peer_attestations args
    ok (record this { peer_attestations = sql }, result)

  unfoldable pub rpc_last_attestation_for_peer : String → Option PeerAttestation
  rpc_last_attestation_for_peer peer_fp = last_attestation_for_peer this.peer_attestations peer_fp

  unfoldable pub rpc_list_attestations_for_peer : String → ℕ → ℕ → List PeerAttestation
  rpc_list_attestations_for_peer peer_fp from_seq limit =
      list_attestations_for_peer this.peer_attestations peer_fp from_seq limit

  unfoldable pub rpc_attestations_for_bead : String → List PeerAttestation
  rpc_attestations_for_bead bead_id = attestations_for_bead this.peer_attestations bead_id

  unfoldable pub rpc_find_attestation_by_content : String → String → Option PeerAttestation
  rpc_find_attestation_by_content peer_fp content_hash =
      find_attestation_by_content this.peer_attestations peer_fp content_hash

  unfoldable pub enqueue_pending_attestation : EnqueueArgs → TrustStore × Bool
  enqueue_pending_attestation args =
      let (sql, enqueued) = enqueue_pending this.pending_attestations args in
      (record this { pending_attestations = sql }, enqueued)

  unfoldable pub commit_pending_attestation : String → String → TrustStore × Bool
  commit_pending_attestation peer_fp content_hash =
      let (sql, deleted) = commit_pending this.pending_attestations peer_fp content_hash in
      (record this { pending_attestations = sql }, deleted)

  unfoldable pub record_pending_failed_attempt : String → String → ℕ → TrustStore × (ℕ × Option ℕ)
  record_pending_failed_attempt peer_fp content_hash now_ms =
      let (sql, answer) =
        record_failed_attempt this.pending_attestations peer_fp content_hash now_ms in
      (record this { pending_attestations = sql }, answer)

  unfoldable pub rpc_list_pending_for_peer : String → List PendingAttestation
  rpc_list_pending_for_peer peer_fp = list_pending_for_peer this.pending_attestations peer_fp

  unfoldable pub upsert_registry_tag : String → String → String → ℕ → TrustStore
  upsert_registry_tag repo tag manifest_digest now_ms = record this {
    registry_tags = upsert_tag this.registry_tags repo tag manifest_digest now_ms;
  }

  unfoldable pub get_registry_manifest_digest_for_tag : String → String → Option String
  get_registry_manifest_digest_for_tag repo tag =
      get_manifest_digest_for_tag this.registry_tags repo tag

  unfoldable pub list_registry_tags_for_repo : String → List String
  list_registry_tags_for_repo repo = list_tags_for_repo this.registry_tags repo

  unfoldable pub list_registry_repos : List String
  list_registry_repos = list_repos this.registry_tags

  unfoldable pub record_registry_membership :
      String → String → MembershipKind → ℕ → Option String → TrustStore
  record_registry_membership repo digest kind now_ms peer_fp = record this {
    registry_blob_membership =
        record_membership this.registry_blob_membership repo digest kind now_ms peer_fp;
  }

  unfoldable pub has_registry_membership : String → String → MembershipKind → Bool
  has_registry_membership repo digest kind =
      has_membership this.registry_blob_membership repo digest kind

  unfoldable pub list_registry_repos_with_membership : String → List String
  list_registry_repos_with_membership digest =
      list_repos_with_membership this.registry_blob_membership digest

  unfoldable pub upsert_receipt : PeerReceiptRow → TrustStore
  upsert_receipt row = record this { peer_receipts = upsert_peer_receipt this.peer_receipts row }

  unfoldable pub get_receipt : String → String → Direction → Option PeerReceiptRow
  get_receipt actor_fp request_hash direction =
      find_peer_receipt this.peer_receipts actor_fp request_hash direction

  unfoldable pub rpc_list_receipts_for_actor_epoch : String → ℕ → ℕ → List PeerReceiptRow
  rpc_list_receipts_for_actor_epoch actor_fp epoch limit =
      list_receipts_for_actor_epoch this.peer_receipts actor_fp epoch limit

  unfoldable pub rpc_prune_expired_receipts : ℕ → ℕ → TrustStore × PruneResult
  rpc_prune_expired_receipts now_ms retention_ms =
      let (sql, r) =
        prune_expired_receipts this.peer_receipts this.actor_ca_bundle now_ms retention_ms in
      (record this { peer_receipts = sql }, r)

  unfoldable pub upsert_ca_bundle : ActorCaBundleEntry → TrustStore
  upsert_ca_bundle row = record this {
    actor_ca_bundle = upsert_actor_ca_bundle this.actor_ca_bundle row;
  }

  unfoldable pub get_ca_bundle : ℕ → Option ActorCaBundleEntry
  get_ca_bundle epoch = get_actor_ca_bundle this.actor_ca_bundle epoch

  unfoldable pub list_ca_bundle_epochs : List ActorCaBundleEntry
  list_ca_bundle_epochs = list_actor_ca_bundle_epochs this.actor_ca_bundle

  unfoldable pub attach_compromise_notice_to_epoch : ℕ → String → TrustStore × Bool
  attach_compromise_notice_to_epoch compromised_epoch notice_b64u =
      let (sql, found) =
        attach_compromise_notice this.actor_ca_bundle compromised_epoch notice_b64u in
      (record this { actor_ca_bundle = sql }, found)
