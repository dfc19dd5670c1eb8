-- ===== src/TrustStore/Drain.antt =====
-- The loop that drains the retry queue into the attestation chains.
use cloister.Prelude.{
  ℕ, suc, ◌+◌, ◌≡◌, refl, ◌∙◌, String, Option, none, List, [], ◌∷◌, ◌++◌, arith, length, or_else,
  All,
}
use cloister.Prelude.Keys.{==_refl, string_eq, pair_eq, option_eq}
use cloister.Prelude.Results.{ok}
use cloister.Table.{find}
use cloister.Table.Laws.{find-delete_where}
use cloister.Storage.PendingAttestations.{
  Pending, PendingAttestation, PendingKey, pending_key, claim_retry_batch, commit_pending,
}
use cloister.Storage.PeerAttestations.{
  PeerAttestation, Attestations, AttestationArgs, applied, head_ref, head_seq, attested_row,
  apply_attestation,
}
use cloister.Storage.PeerAttestations.Chain.{
  IsChained, chain_head, append-IsChained, last_attestation_lem, apply_attestation_lem,
}
use cloister.TrustStore.{
  TrustStore, DrainState, drained_ok, retry_args, settle, drain_row, drain_rows,
  drain_pending_retries,
}

-- A retry names the head of its peer's chain as it stands, so it is always written.
drain_row_lem :
    (content_type : String) (now_ms : ℕ) (state : DrainState) (row : PendingAttestation)
    → IsChained (state.0).peer_attestations
    → let head = chain_head (state.0).peer_attestations row.peer_fp in
      let args = retry_args row content_type (head_ref head) now_ms in
      drain_row content_type now_ms state row
      ≡ drained_ok state row
          ((state.0).peer_attestations ++ attested_row args (head_seq head + 1) ∷ [])
unfolding drain_row
drain_row_lem content_type now_ms state row h =
    let sql : Attestations = (state.0).peer_attestations in
    let head : Option PeerAttestation = chain_head sql row.peer_fp in
    let args : AttestationArgs = retry_args row content_type (head_ref head) now_ms in
    let writes : apply_attestation sql args
        ≡ ok (
          sql ++ attested_row args (head_seq head + 1) ∷ [],
          applied (head_seq head + 1) (attested_row args (head_seq head + 1)),
        ) =
      apply_attestation_lem sql args h ∙ (rw (==_refl (head_ref head))) in
    rw (last_attestation_lem sql row.peer_fp h, drain_row) (rw (writes, settle))

-- The rows that a drain writes for a batch, one for each claimed row and in its order.
abbrev pub retried : Attestations → String → ℕ → List PendingAttestation → Attestations
retried sql content_type now_ms [] = sql
retried sql content_type now_ms (row ∷ batch) =
    let head = chain_head sql row.peer_fp in
    let args = retry_args row content_type (head_ref head) now_ms in
    retried (sql ++ attested_row args (head_seq head + 1) ∷ []) content_type now_ms batch

abbrev pub without_rows : Pending → List PendingAttestation → Pending
without_rows sql [] = sql
without_rows sql (row ∷ batch) =
    without_rows (commit_pending sql row.peer_fp row.content_hash).0 batch

drain_rows_lem :
    (content_type : String) (now_ms : ℕ) (this : TrustStore) (committed failed : ℕ)
    (batch : List PendingAttestation)
    → IsChained this.peer_attestations
    → (drain_rows content_type now_ms (this, (committed, failed)) batch ≡ (
      record this {
        peer_attestations = retried this.peer_attestations content_type now_ms batch;
        pending_attestations = without_rows this.pending_attestations batch;
      },
      (committed + length batch, failed),
    ))
      × IsChained (retried this.peer_attestations content_type now_ms batch)
unfolding drain_rows
drain_rows_lem content_type now_ms this committed failed [] h = (ground arith, h)
drain_rows_lem content_type now_ms this committed failed (row ∷ batch) h =
    let sql : Attestations = this.peer_attestations in
    let head : Option PeerAttestation = chain_head sql row.peer_fp in
    let written : PeerAttestation =
      attested_row (retry_args row content_type (head_ref head) now_ms) (head_seq head + 1) in
    let next : TrustStore = record this {
      peer_attestations = sql ++ written ∷ [];
      pending_attestations =
          (commit_pending this.pending_attestations row.peer_fp row.content_hash).0;
    } in
    let (ran, chained) =
      drain_rows_lem content_type now_ms next (committed + 1) failed batch
        (append-IsChained sql written h refl refl) in
    let count : committed + 1 + length batch ≡ committed + suc (length batch) = omega arith in
    (
      rw (drain_row_lem content_type now_ms (this, (committed, failed)) row h, ran) (rw count),
      chained,
    )

without_rows-eq-none :
    (sql : Pending) (batch : List PendingAttestation) (k : PendingKey)
    → find pending_key k sql ≡ none
    → find pending_key k (without_rows sql batch) ≡ none
unfolding commit_pending
without_rows-eq-none sql [] k h = h
without_rows-eq-none sql (row ∷ batch) k h =
    without_rows-eq-none (commit_pending sql row.peer_fp row.content_hash).0 batch k
      (find-delete_where pending_key (pending_key row) k sql ∙ rw h (ground arith))

gone :
    (sql : Pending) (batch : List PendingAttestation)
    → All (λ r. find pending_key (pending_key r) (without_rows sql batch) ≡ none) batch
unfolding commit_pending
gone sql [] = tt
gone sql (row ∷ batch) = (
  without_rows-eq-none (commit_pending sql row.peer_fp row.content_hash).0 batch (pending_key row) (
      find-delete_where pending_key (pending_key row) (pending_key row) sql
      ∙ rw (==_refl (pending_key row))),
  gone (commit_pending sql row.peer_fp row.content_hash).0 batch,
)

-- On chained attestations a drain commits every row that it claims and fails none. The claimed
-- writes are appended one by one, each naming the head of its peer's chain as it then stands, so the
-- chains stay unforked; the claimed rows leave the queue; every other table is unchanged.
pub drain_lem :
    (this : TrustStore) (now_ms : ℕ) (content_type : String) (limit : Option ℕ)
    → IsChained this.peer_attestations
    → let batch = claim_retry_batch this.pending_attestations now_ms (or_else limit 32) in
      let this' = record this {
        peer_attestations = retried this.peer_attestations content_type now_ms batch;
        pending_attestations = without_rows this.pending_attestations batch;
      } in
      (drain_pending_retries this now_ms content_type limit
        ≡ (this', record { claimed = length batch; committed = length batch; failed = 0 }))
      × IsChained this'.peer_attestations
      × All (λ r. find pending_key (pending_key r) this'.pending_attestations ≡ none) batch
unfolding drain_pending_retries
drain_lem this now_ms content_type limit h =
    let batch : List PendingAttestation =
      claim_retry_batch this.pending_attestations now_ms (or_else limit 32) in
    let (ran, chained) = drain_rows_lem content_type now_ms this 0 0 batch h in
    let same : 0 + length batch ≡ length batch = omega arith in
    (rw ran (rw same), chained, gone this.pending_attestations batch)
