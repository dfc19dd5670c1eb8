-- ===== src/Storage/PeerReceipts.antt =====
-- src/storage/peer-receipts.ts: the receipts that were observed and emitted, and their retention.
pub mod Retention
use cloister.Prelude.{
  ℕ, zero, suc, ◌+◌, ◌*◌, ◌≡◌, ◌↔◌, refl, String, Bool, true, false, ◌&&◌, Option, none, some, List,
  [], ◌∷◌, arith, leb, ltb, length, take, if◌then◌else◌, min,
}
use cloister.Prelude.Keys.{Eq, ◌==◌, nat_eq, string_eq, pair_eq}
use cloister.Prelude.Sort.{sort}
use cloister.Table.{find, upsert, select, delete_where, exists}
use cloister.Storage.ActorCaBundle.{Archive, ActorCaBundleEntry, EpochStatus, active, retired}

-- 'in' and 'out'
pub data Direction : Type 0 where
  inbound outbound : Direction

abbrev pub direction_beq : Direction → Direction → Bool
direction_beq inbound inbound = true
direction_beq outbound outbound = true
direction_beq inbound outbound = false
direction_beq outbound inbound = false

pub direction_beq_iff : (a b : Direction) → (direction_beq a b ≡ true) ↔ (a ≡ b)
direction_beq_iff a b = ground arith

instance abbrev pub direction_eq : Eq Direction
direction_eq = record { beq = direction_beq; beq_iff = direction_beq_iff }

pub record PeerReceiptRow : Type 0 where
  pub actor_fp : String
  pub request_hash : String
  pub direction : Direction
  pub epoch : ℕ
  pub peer_fp : Option String
  pub status : ℕ
  pub timestamp_ms : ℕ
  pub envelope_b64u : String
  pub observed_at_ms : ℕ

abbrev pub Receipts : Type 0
Receipts = List PeerReceiptRow

-- PRIMARY KEY (actor_fp, request_hash, direction)
abbrev pub ReceiptKey : Type 0
ReceiptKey = String × (String × Direction)

abbrev pub receipt_key : PeerReceiptRow → ReceiptKey
receipt_key r = (r.actor_fp, (r.request_hash, r.direction))

unfoldable pub upsert_peer_receipt : Receipts → PeerReceiptRow → Receipts
upsert_peer_receipt sql row = upsert receipt_key row sql

unfoldable pub find_peer_receipt : Receipts → String → String → Direction → Option PeerReceiptRow
find_peer_receipt sql actor_fp request_hash direction =
    find receipt_key (actor_fp, (request_hash, direction)) sql

-- seven years
abbrev pub default_receipt_retention_ms : ℕ
default_receipt_retention_ms = 7 * 365 * 24 * 60 * 60 * 1000

-- ORDER BY timestamp_ms ASC LIMIT limit
unfoldable pub list_receipts_for_actor_epoch : Receipts → String → ℕ → ℕ → List PeerReceiptRow
list_receipts_for_actor_epoch sql actor_fp epoch limit = take limit (
    sort (λ a b. leb a.timestamp_ms b.timestamp_ms)
      (select (λ r. r.actor_fp == actor_fp && r.epoch == epoch) sql))

-- status = 'retired' AND retired_at_ms IS NOT NULL AND retired_at_ms + retention < now
unfoldable pub past_retention : ℕ → ℕ → ActorCaBundleEntry → Bool
past_retention retention_ms now_ms b = elim b.status [
  | active ↦ false
  | retired ↦ elim b.retired_at_ms [ none ↦ false | some at ↦ ltb (at + retention_ms) now_ms ]
]

-- The WHERE clause of the DELETE.
unfoldable pub is_expired : Archive → ℕ → ℕ → PeerReceiptRow → Bool
is_expired bundle now_ms retention_ms r =
    r.direction == outbound
    && exists (λ b. b.epoch == r.epoch && past_retention retention_ms now_ms b) bundle

-- The minimum of one more timestamp.
abbrev pub lower : ℕ → Option ℕ → Option ℕ
lower n none = some n
lower n (some m) = some (min n m)

-- SELECT MIN(timestamp_ms): NULL on an empty table
unfoldable pub min_timestamp : Receipts → Option ℕ
min_timestamp [] = none
min_timestamp (r ∷ t) = lower r.timestamp_ms (min_timestamp t)

pub record PruneResult : Type 0 where
  pub deleted : ℕ
  pub oldest_remaining_ms : Option ℕ

unfoldable pub prune_expired_receipts : Receipts → Archive → ℕ → ℕ → Receipts × PruneResult
prune_expired_receipts sql bundle now_ms retention_ms =
    let kept = delete_where (is_expired bundle now_ms retention_ms) sql in
    (
      kept,
      record {
        deleted = length (select (is_expired bundle now_ms retention_ms) sql);
        oldest_remaining_ms = min_timestamp kept;
      },
    )
