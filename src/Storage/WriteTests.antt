-- ===== src/Storage/WriteTests.antt =====
-- A concrete retry queue, attestation chain and registry, and the theorems about them at these.
use mathlib.Core.Option
use cloister.Prelude.{◌≡◌, none, [], ◌∷◌, if◌then◌else◌}
use cloister.Prelude.Keys.{◌==◌, string_eq, nat_eq, pair_eq, option_eq}
use cloister.Prelude.Results.{ok}
use cloister.Table.{find, select}
use cloister.Storage.PendingAttestations.{
  Pending, PendingKey, pending_key, max_safe_integer, EnqueueArgs, record_failed_attempt,
}
use cloister.Storage.PendingAttestations.Schedule.{first_row, failed_row, report, record_failed_lem}
use cloister.Storage.PeerAttestations.{AttestationArgs, applied, attested_row, apply_attestation}
use cloister.Storage.PeerAttestations.Chain.{
  IsChained, attested, apply_attestation_lem, apply_attestation-IsChained,
}
use cloister.Storage.RegistryMembership.{kind_eq}

abbrev failed_write : EnqueueArgs
failed_write = record {
  peer_fp = "p";
  content_hash = "h1";
  scope = "s";
  cert = 1 ∷ [];
  sig = 2 ∷ [];
  now_ms = 1000;
}

-- One write that failed once, and one whose attempts are used up.
abbrev queue : Pending
queue =
    first_row failed_write
    ∷ record (first_row failed_write) {
      content_hash = "h2";
      attempts = 5;
      next_retry_at = max_safe_integer;
    }
    ∷ []

record_failed_example :
    ((record_failed_attempt queue "p" "h1" 40000).1
      ≡ report 40000 (find pending_key ("p", "h1") queue))
    × (find pending_key ("p", "h2") (record_failed_attempt queue "p" "h1" 40000).0 ≡ (
        if ◌==◌ {K = PendingKey} ("p", "h1") ("p", "h2")
        then Option.map (failed_row 40000) (find pending_key ("p", "h2") queue)
        else find pending_key ("p", "h2") queue))
record_failed_example = record_failed_lem queue "p" "h1" 40000 ("p", "h2")

abbrev genesis : AttestationArgs
genesis = record {
  peer_fingerprint = "p";
  content_hash = "h1";
  content_type = "t";
  scope = "s";
  cert = [];
  sig = [];
  prev_self_ref = none;
  prev_peer_ref = none;
  now_ms = 5;
  bead_id = none;
  origins = none;
}

empty-IsChained : IsChained []
unfolding select
empty-IsChained p = tt

apply_attestation_example : apply_attestation [] genesis ≡ ok (attested [] genesis)
apply_attestation_example = apply_attestation_lem [] genesis empty-IsChained

genesis_applied :
    apply_attestation [] genesis
    ≡ ok (attested_row genesis 1 ∷ [], applied 1 (attested_row genesis 1))
unfolding select
genesis_applied = apply_attestation_lem [] genesis empty-IsChained

apply_attestation-IsChained_example : IsChained (attested_row genesis 1 ∷ [])
apply_attestation-IsChained_example =
    apply_attestation-IsChained [] (attested_row genesis 1 ∷ []) genesis
      (applied 1 (attested_row genesis 1)) empty-IsChained genesis_applied
