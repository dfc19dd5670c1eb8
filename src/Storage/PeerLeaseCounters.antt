-- ===== src/Storage/PeerLeaseCounters.antt =====
-- src/storage/peer-lease-counters.ts: one hash-chained counter for each peer.
pub mod Chain
use cloister.Prelude.{
  ℕ, ◌+◌, ◌≡◌, String, Bool, true, false, not, Option, none, some, List, if◌then◌else◌,
}
use cloister.Prelude.Keys.{◌==◌, nat_eq, string_eq}
use cloister.Prelude.Results.{Result, ok, err, ◌>>=◌, ◌>>◌, guard}
use cloister.Prelude.Text.{◌&◌, hex, decimal}
use cloister.Table.{find, upsert}

-- "0".repeat(64)
abbrev pub zero_hash : String
zero_hash = "0000000000000000000000000000000000000000000000000000000000000000"

pub record PeerLeaseCounter : Type 0 where
  pub peer_fingerprint : String
  pub seq : ℕ
  pub last_chain_hash : String
  pub last_cert_fp : String
  pub updated_at : ℕ

abbrev pub Counters : Type 0
Counters = List PeerLeaseCounter

abbrev pub peer_key : PeerLeaseCounter → String
peer_key r = r.peer_fingerprint

-- What ChainIntegrityError reports.
pub data ChainError : Type 0 where
  non_monotonic_seq chain_hash_skip : ChainError

pub record LeaseStep : Type 0 where
  pub prev_seq : ℕ
  pub prev_hash : String
  pub seq : ℕ
  pub last_chain_hash : String

-- The text that is hashed.
unfoldable pub chain_preimage : String → String → String → ℕ → String
chain_preimage prev_hash cert_fp nonce ts = prev_hash & cert_fp & nonce & decimal ts

unfoldable pub read_lease_counter : Counters → String → Option PeerLeaseCounter
read_lease_counter sql peer_fp = find peer_key peer_fp sql

unfoldable pub write_lease_counter_row : Counters → String → String → ℕ → ℕ → String → Counters
write_lease_counter_row sql peer_fp cert_fp ts seq last_chain_hash =
    upsert peer_key
      (record {
        peer_fingerprint = peer_fp;
        seq = seq;
        last_chain_hash = last_chain_hash;
        last_cert_fp = cert_fp;
        updated_at = ts;
      })
      sql

-- existing?.seq ?? 0 and existing?.last_chain_hash ?? ZERO_HASH
abbrev pub prev_seq_of : Option PeerLeaseCounter → ℕ
prev_seq_of none = 0
prev_seq_of (some r) = r.seq

abbrev pub prev_hash_of : Option PeerLeaseCounter → String
prev_hash_of none = zero_hash
prev_hash_of (some r) = r.last_chain_hash

-- `sha256` gives the digest's bytes of the UTF-8 form of a text.
module _ (sha256 : String → List ℕ) where
  unfoldable pub next_chain_hash : String → String → String → ℕ → String
  next_chain_hash prev_hash cert_fp nonce ts =
      hex (sha256 (chain_preimage prev_hash cert_fp nonce ts))

  unfoldable pub assert_chain_step :
      ℕ → String → ℕ → String → String → String → ℕ → Result ChainError (Unit {0})
  assert_chain_step prev_seq prev_hash next_seq next_hash cert_fp nonce ts = do
    guard (next_seq == prev_seq + 1) non_monotonic_seq
    guard (next_hash == next_chain_hash prev_hash cert_fp nonce ts) chain_hash_skip

  unfoldable pub compute_next_lease_step :
      Counters → String → String → String → ℕ → Result ChainError LeaseStep
  compute_next_lease_step sql peer_fp cert_fp nonce ts = do
    let existing = read_lease_counter sql peer_fp
    let prev_hash = prev_hash_of existing
    let prev_seq = prev_seq_of existing
    let last_chain_hash = next_chain_hash prev_hash cert_fp nonce ts
    let seq = prev_seq + 1
    assert_chain_step prev_seq prev_hash seq last_chain_hash cert_fp nonce ts
    ok (record {
      prev_seq = prev_seq;
      prev_hash = prev_hash;
      seq = seq;
      last_chain_hash = last_chain_hash;
    })

  unfoldable pub apply_lease_counter :
      Counters → String → String → String → ℕ → Result ChainError (Counters × (ℕ × String))
  apply_lease_counter sql peer_fp cert_fp nonce ts = do
    step ← compute_next_lease_step sql peer_fp cert_fp nonce ts
    ok (
      write_lease_counter_row sql peer_fp cert_fp ts step.seq step.last_chain_hash,
      (step.seq, step.last_chain_hash),
    )
