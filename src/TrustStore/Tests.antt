-- ===== src/TrustStore/Tests.antt =====
-- A store and requests to it.
use mathlib.Core.List.{foldl}
use cloister.Prelude.{
  ℕ, ◌≡◌, refl, String, true, false, none, List, [], ◌∷◌, arith, length, or_else, All,
  if◌then◌else◌,
}
use cloister.Prelude.Keys.{string_eq, pair_eq}
use cloister.Prelude.Results.{ok}
use cloister.Table.{find, select}
use cloister.Storage.SeenNonces.Replay.{Represents}
use cloister.Storage.PeerLeaseCounters.Chain.{position, extend}
use cloister.Storage.PendingAttestations.{EnqueueArgs, pending_key, claim_retry_batch}
use cloister.Storage.PendingAttestations.Schedule.{first_row}
use cloister.Storage.PeerAttestations.Chain.{IsChained}
use cloister.TrustStore.{
  TrustStore, SweepFaults, LeaseArgs, replayed, advanced, alarm, verify_lease_and_advance_chain,
  drain_pending_retries,
}
use cloister.TrustStore.Lease.{
  is_replay, accepted_state, next_position, verify_lease_lem, verify_all, first_of_each,
  verify_all_lem,
}
use cloister.TrustStore.Drain.{retried, without_rows, drain_lem}
use cloister.TrustStore.Sweep.{replay_after_sweep}

-- A digest of one byte.
abbrev digest : String → List ℕ
digest text = 171 ∷ []

abbrev empty : TrustStore
empty = record {
  lease_counters = [];
  seen_nonces = [];
  pending_attestations = [];
  peer_attestations = [];
  registry_tags = [];
  registry_blob_membership = [];
  peer_receipts = [];
  actor_ca_bundle = [];
  alarm_at = none;
}

abbrev lease : LeaseArgs
lease = record { peer_fp = "p"; cert_fp = "cert"; nonce = "n1"; ts = 1000 }

verify_lease_example :
    verify_lease_and_advance_chain digest empty lease
    ≡ ok (
        if is_replay empty lease then (empty, replayed) else (
          accepted_state digest empty lease,
          advanced (next_position digest empty lease).0 (next_position digest empty lease).1,
        ))
verify_lease_example = verify_lease_lem digest empty lease

-- The second is a replay.
abbrev leases : List LeaseArgs
leases = lease ∷ record lease { ts = 2000 } ∷ record lease { nonce = "n2"; ts = 3000 } ∷ []

empty-Represents : Represents [] []
unfolding find
empty-Represents k = refl

verify_all_example :
    (this' : TrustStore) × (verify_all digest empty leases ≡ ok this')
    × ((p : String)
        → position this'.lease_counters p
          ≡ foldl (extend digest p) (position [] p) (first_of_each digest [] leases))
verify_all_example = verify_all_lem digest empty [] leases empty-Represents

abbrev faults : SweepFaults
faults = record { nonces_throw = false; receipts_throw = true }

abbrev accepted : TrustStore
accepted = accepted_state digest empty lease

not_seen : is_replay empty lease ≡ false
not_seen = unfold find in refl

first_answer :
    verify_lease_and_advance_chain digest empty lease
    ≡ ok (
      accepted,
      advanced (next_position digest empty lease).0 (next_position digest empty lease).1,
    )
first_answer = rw (not_seen) at (verify_lease_lem digest empty lease)

replay_after_sweep_example :
    verify_lease_and_advance_chain digest
      (alarm accepted faults 3601000 3601005).0
      (record lease { peer_fp = "q"; ts = 3601100 })
    ≡ ok ((alarm accepted faults 3601000 3601005).0, replayed)
replay_after_sweep_example =
    replay_after_sweep digest empty accepted lease
      (advanced (next_position digest empty lease).0 (next_position digest empty lease).1) faults
      3601000 3601005 "q" 3601100 tt not_seen first_answer (omega arith)

abbrev write : EnqueueArgs
write = record {
  peer_fp = "p";
  content_hash = "h1";
  scope = "s";
  cert = 1 ∷ [];
  sig = 2 ∷ [];
  now_ms = 1000;
}

abbrev queued : TrustStore
queued = record empty { pending_attestations = first_row write ∷ [] }

empty-IsChained : IsChained []
unfolding select
empty-IsChained p = tt

drain_example :
    let batch = claim_retry_batch queued.pending_attestations 40000 (or_else none 32) in
    let this' = record queued {
      peer_attestations = retried [] "t" 40000 batch;
      pending_attestations = without_rows queued.pending_attestations batch;
    } in
    (drain_pending_retries queued 40000 "t" none
      ≡ (this', record { claimed = length batch; committed = length batch; failed = 0 }))
    × IsChained this'.peer_attestations
    × All (λ r. find pending_key (pending_key r) this'.pending_attestations ≡ none) batch
drain_example = drain_lem queued 40000 "t" none empty-IsChained
