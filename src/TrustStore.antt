-- ===== src/TrustStore.antt =====
-- src/trust-store.ts: the durable object that holds every table, its RPC methods and its alarm. The
-- input gate (`blockConcurrencyWhile`) makes each method one step from state to state.
pub mod Rpc
pub mod Lease
pub mod Drain
pub mod Sweep
mod Tests
use cloister.Prelude.{
  ℕ, ◌+◌, ◌-◌, ◌*◌, String, Bool, true, false, not, ◌&&◌, Option, none, some, List, [], ◌∷◌, length,
  or_else, if◌then◌else◌,
}
use cloister.Prelude.Results.{Result, ok, err, ◌>>=◌, ◌>>◌}
use cloister.Prelude.Keys.{◌==◌, string_eq}
use cloister.Table.{exists}
use cloister.Storage.SeenNonces.{Ledger, record_seen_nonce, prune_seen_nonces_before}
use cloister.Storage.PeerLeaseCounters.{
  Counters, ChainError, compute_next_lease_step, write_lease_counter_row, apply_lease_counter,
}
use cloister.Storage.PendingAttestations.{
  Pending, PendingAttestation, claim_retry_batch, commit_pending, record_failed_attempt,
}
use cloister.Storage.PeerAttestations.{
  Attestations, AttestationArgs, ApplyAttestationResult, applied, prev_self_ref_mismatch, SqlError,
  head_ref, last_attestation_for_peer, apply_attestation, of_peer,
}
use cloister.Storage.RegistryTags.{Tags}
use cloister.Storage.RegistryMembership.{Memberships}
use cloister.Storage.PeerReceipts.{
  Receipts, PruneResult, prune_expired_receipts, default_receipt_retention_ms,
}
use cloister.Storage.ActorCaBundle.{Archive}

-- The tables, and the time of the scheduled alarm.
pub record TrustStore : Type 0 where
  pub lease_counters : Counters
  pub seen_nonces : Ledger
  pub pending_attestations : Pending
  pub peer_attestations : Attestations
  pub registry_tags : Tags
  pub registry_blob_membership : Memberships
  pub peer_receipts : Receipts
  pub actor_ca_bundle : Archive
  pub alarm_at : Option ℕ

abbrev pub alarm_interval_ms : ℕ
alarm_interval_ms = 60 * 60 * 1000

abbrev pub seen_nonces_retention_ms : ℕ
seen_nonces_retention_ms = 60 * 60 * 1000

unfoldable pub ensure_alarm_scheduled : TrustStore → ℕ → TrustStore
ensure_alarm_scheduled this now_ms = elim this.alarm_at [
  | none ↦ record this { alarm_at = some (now_ms + alarm_interval_ms) }
  | some at ↦ this
]

-- Whether the two DELETE statements of a sweep throw.
pub record SweepFaults : Type 0 where
  pub nonces_throw : Bool
  pub receipts_throw : Bool

-- What the sweep logs.
pub record SweepLog : Type 0 where
  pub seen_nonces_deleted : ℕ
  pub receipts_deleted : ℕ
  pub oldest_remaining_receipt_ms : Option ℕ

abbrev pub sweep_nonces : TrustStore → ℕ → Bool → TrustStore × ℕ
sweep_nonces this now_ms true = (this, 0)
sweep_nonces this now_ms false =
    let (nonces, deleted) =
      prune_seen_nonces_before this.seen_nonces (now_ms - seen_nonces_retention_ms) in
    (record this { seen_nonces = nonces }, deleted)

abbrev pub sweep_receipts : TrustStore → ℕ → Bool → TrustStore × PruneResult
sweep_receipts this now_ms true = (this, record { deleted = 0; oldest_remaining_ms = none })
sweep_receipts this now_ms false =
    let (receipts, r) =
      prune_expired_receipts this.peer_receipts this.actor_ca_bundle now_ms
        default_receipt_retention_ms in
    (record this { peer_receipts = receipts }, r)

-- `now_ms` and `rearmed_ms` are the two readings of the clock. A cutoff before time 0 deletes
-- nothing, as the cutoff 0 does.
unfoldable pub alarm : TrustStore → SweepFaults → ℕ → ℕ → TrustStore × SweepLog
alarm this faults now_ms rearmed_ms =
    let (swept, nonces_deleted) = sweep_nonces this now_ms faults.nonces_throw in
    let (swept', r) = sweep_receipts swept now_ms faults.receipts_throw in
    (
      record swept' { alarm_at = some (rearmed_ms + alarm_interval_ms) },
      record {
        seen_nonces_deleted = nonces_deleted;
        receipts_deleted = r.deleted;
        oldest_remaining_receipt_ms = r.oldest_remaining_ms;
      },
    )

-- The arguments of the lease RPCs.
pub record LeaseArgs : Type 0 where
  pub peer_fp : String
  pub cert_fp : String
  pub nonce : String
  pub ts : ℕ

pub data LeaseVerdict : Type 0 where
  replayed : LeaseVerdict
  advanced : (seq : ℕ) (last_chain_hash : String) → LeaseVerdict

-- What a transaction's callback throws to roll back.
pub data Rollback : Type 0 where
  replay_sentinel : Rollback

-- `transactionSync`: the writes of the callback, or none of them.
unfoldable pub transaction_sync :
    TrustStore → (TrustStore → Result Rollback TrustStore) → TrustStore × Bool
transaction_sync this body = elim (body this) [
  | ok committed ↦ (committed, false)
  | err e ↦ (this, true)
]

-- `this.ctx.storage.transactionSync` of `verifyLeaseAndAdvanceChain`
unfoldable pub record_and_advance : LeaseArgs → ℕ → String → TrustStore → Result Rollback TrustStore
record_and_advance args seq last_chain_hash this =
    let (nonces, fresh) = record_seen_nonce this.seen_nonces args.cert_fp args.nonce args.ts in
    if fresh
    then ok (record this {
      seen_nonces = nonces;
      lease_counters =
          write_lease_counter_row this.lease_counters args.peer_fp args.cert_fp args.ts seq
            last_chain_hash;
    })
    else err replay_sentinel

module _ (sha256 : String → List ℕ) where
  unfoldable pub upsert_lease_counter :
      TrustStore → LeaseArgs → Result ChainError (TrustStore × (ℕ × String))
  upsert_lease_counter this args = do
    (counters, answer) ←
        apply_lease_counter sha256 this.lease_counters args.peer_fp args.cert_fp args.nonce args.ts
    ok (record this { lease_counters = counters }, answer)

  unfoldable pub verify_lease_and_advance_chain :
      TrustStore → LeaseArgs → Result ChainError (TrustStore × LeaseVerdict)
  verify_lease_and_advance_chain this args = do
    step ←
        compute_next_lease_step sha256 this.lease_counters args.peer_fp args.cert_fp args.nonce
          args.ts
    let (this', rolled_back) =
        transaction_sync this (record_and_advance args step.seq step.last_chain_hash)
    ok (this', if rolled_back then replayed else advanced step.seq step.last_chain_hash)

-- SELECT 1 FROM each table, LIMIT 1
unfoldable pub peer_has_chain : TrustStore → String → Bool
peer_has_chain this peer_fp =
    if exists (of_peer peer_fp) this.peer_attestations
    then true
    else exists (λ r. r.peer_fp == peer_fp) this.pending_attestations

pub record DrainCounts : Type 0 where
  pub claimed : ℕ
  pub committed : ℕ
  pub failed : ℕ

-- The arguments of the attestation that retries a row: nothing links it to a bead.
abbrev pub retry_args : PendingAttestation → String → Option String → ℕ → AttestationArgs
retry_args row content_type prev_self_ref now_ms = record {
  peer_fingerprint = row.peer_fp;
  content_hash = row.content_hash;
  content_type = content_type;
  scope = row.scope;
  cert = row.cert;
  sig = row.sig;
  prev_self_ref = prev_self_ref;
  prev_peer_ref = none;
  now_ms = now_ms;
  bead_id = none;
  origins = none;
}

-- The state of the loop, with the counts of committed and failed rows.
abbrev pub DrainState : Type 0
DrainState = TrustStore × (ℕ × ℕ)

abbrev pub drained_ok : DrainState → PendingAttestation → Attestations → DrainState
drained_ok (this, (committed, failed)) row attestations = (
  record this {
    peer_attestations = attestations;
    pending_attestations =
        (commit_pending this.pending_attestations row.peer_fp row.content_hash).0;
  },
  (committed + 1, failed),
)

abbrev pub drained_failed : DrainState → PendingAttestation → ℕ → DrainState
drained_failed (this, (committed, failed)) row now_ms = (
  record this {
    pending_attestations =
        (record_failed_attempt this.pending_attestations row.peer_fp row.content_hash now_ms).0;
  },
  (committed, failed + 1),
)

-- What a round does with the outcome of the write: a throw and a mismatch both count as a failed
-- attempt.
unfoldable pub settle :
    DrainState
    → PendingAttestation
    → ℕ
    → Result SqlError (Attestations × ApplyAttestationResult)
    → DrainState
settle state row now_ms (ok (attestations, applied seq written)) = drained_ok state row attestations
settle state row now_ms (ok (attestations, prev_self_ref_mismatch m x y)) =
    drained_failed state row now_ms
settle state row now_ms (err e) = drained_failed state row now_ms

-- One round of the loop.
unfoldable pub drain_row : String → ℕ → DrainState → PendingAttestation → DrainState
unfolding settle
drain_row content_type now_ms state row =
    let attestations = (state.0).peer_attestations in
    let prev_self_ref = head_ref (last_attestation_for_peer attestations row.peer_fp) in
    settle state row now_ms
      (apply_attestation attestations (retry_args row content_type prev_self_ref now_ms))

unfoldable pub drain_rows : String → ℕ → DrainState → List PendingAttestation → DrainState
drain_rows content_type now_ms state [] = state
drain_rows content_type now_ms state (row ∷ batch) =
    drain_rows content_type now_ms (drain_row content_type now_ms state row) batch

unfoldable pub drain_pending_retries : TrustStore → ℕ → String → Option ℕ → TrustStore × DrainCounts
unfolding drain_rows drain_row
drain_pending_retries this now_ms content_type limit =
    let batch = claim_retry_batch this.pending_attestations now_ms (or_else limit 32) in
    let (this', (committed, failed)) = drain_rows content_type now_ms (this, (0, 0)) batch in
    (this', record { claimed = length batch; committed = committed; failed = failed })
