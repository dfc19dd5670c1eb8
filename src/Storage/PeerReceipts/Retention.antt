-- ===== src/Storage/PeerReceipts/Retention.antt =====
-- Which receipts a prune takes away, what it reports, and lookups after an upsert.
use cloister.Prelude.{
  ℕ, ◌+◌, ◌≤◌, ◌≡◌, refl, String, Bool, true, false, Option, none, some, [], ◌∷◌, arith, leb,
  leb→le, min, All-map, length, if◌then◌else◌, All, Bool-cases, inl, inr,
}
use cloister.Prelude.Keys.{◌==◌, nat_eq, string_eq, pair_eq}
use cloister.Table.{find, HasDistinctKeys}
use cloister.Table.Laws.{find-upsert, find-delete_where_distinct, exists-key, length-delete_where}
use cloister.Storage.ActorCaBundle.{Archive, epoch_key, get_actor_ca_bundle}
use cloister.Storage.PeerReceipts.{
  Direction, inbound, outbound, direction_eq, PeerReceiptRow, Receipts, receipt_key,
  upsert_peer_receipt, find_peer_receipt, past_retention, is_expired, min_timestamp, lower,
  prune_expired_receipts,
}

-- An upserted receipt is found under its own key, and no other key changes.
pub find-upsert_receipt :
    (sql : Receipts) (row : PeerReceiptRow) (actor hash : String) (d : Direction)
    → find_peer_receipt (upsert_peer_receipt sql row) actor hash d ≡ (
        if receipt_key row == (actor, (hash, d))
        then some row
        else find_peer_receipt sql actor hash d)
unfolding find_peer_receipt upsert_peer_receipt
find-upsert_receipt sql row actor hash d = find-upsert receipt_key row (actor, (hash, d)) sql

-- The rule in words: emitted by this actor, in an epoch that the archive says was retired at a time
-- more than the retention before now.
abbrev pub is_prunable : Archive → ℕ → ℕ → PeerReceiptRow → Bool
is_prunable bundle now_ms retention_ms r = elim r.direction [
  | inbound ↦ false
  | outbound ↦ elim (get_actor_ca_bundle bundle r.epoch) [
    | none ↦ false
    | some b ↦ past_retention retention_ms now_ms b
  ]
]

is_expired-eq-is_prunable :
    (bundle : Archive) (now_ms retention_ms : ℕ) (r : PeerReceiptRow)
    → HasDistinctKeys epoch_key bundle
    → is_expired bundle now_ms retention_ms r ≡ is_prunable bundle now_ms retention_ms r
unfolding is_expired get_actor_ca_bundle
is_expired-eq-is_prunable bundle now_ms retention_ms r h =
    ground (arith, exists-key epoch_key (past_retention retention_ms now_ms) r.epoch bundle h)

-- In tables with distinct keys, a prune keeps a receipt exactly if the rule does not apply to it: receipts of active, unknown or
-- recently retired epochs, and all receipts from others, stay.
pub find-prune :
    (sql : Receipts) (bundle : Archive) (now_ms retention_ms : ℕ) (actor hash : String)
    (d : Direction)
    → HasDistinctKeys receipt_key sql
    → HasDistinctKeys epoch_key bundle
    → find_peer_receipt (prune_expired_receipts sql bundle now_ms retention_ms).0 actor hash d
      ≡ elim (find_peer_receipt sql actor hash d) [
        | none ↦ none
        | some r ↦ if is_prunable bundle now_ms retention_ms r then none else some r
      ]
unfolding find_peer_receipt prune_expired_receipts
find-prune sql bundle now_ms retention_ms actor hash d h k =
    rw
      (find-delete_where_distinct receipt_key (is_expired bundle now_ms retention_ms)
        (actor, (hash, d)) sql h)
      (agree (find receipt_key (actor, (hash, d)) sql))
  where
    agree :
        (o : Option PeerReceiptRow)
        → ◌≡◌ {A = Option PeerReceiptRow}
            (elim o [
              | none ↦ none
              | some r ↦ if is_expired bundle now_ms retention_ms r then none else some r
            ])
            (elim o [
              | none ↦ none
              | some r ↦ if is_prunable bundle now_ms retention_ms r then none else some r
            ])
    agree none = refl
    agree (some r) = rw (is_expired-eq-is_prunable bundle now_ms retention_ms r k)

pub attains : ℕ → Receipts → Bool
attains m [] = false
attains m (r ∷ t) = if r.timestamp_ms == m then true else attains m t

attains-cons :
    (m : ℕ) (r : PeerReceiptRow) (t : Receipts)
    → attains m (r ∷ t) ≡ (if r.timestamp_ms == m then true else attains m t)
unfolding attains
attains-cons m r t = refl

-- The earliest timestamp of the rows, `none` exactly if there is no row.
abbrev pub IsOldest : Receipts → Option ℕ → Type 0
IsOldest t none = t ≡ []
IsOldest t (some m) = All (λ r. m ≤ r.timestamp_ms) t × (attains m t ≡ true)

IsOldest-lower :
    (r : PeerReceiptRow) (t : Receipts) (o : Option ℕ)
    → IsOldest t o
    → IsOldest (r ∷ t) (lower r.timestamp_ms o)
IsOldest-lower r t none h = rw h ((omega arith, tt), rw attains-cons (ground arith))
IsOldest-lower r t (some m) h = (
  (
    omega arith,
    All-map (λ s. m ≤ s.timestamp_ms) (λ s. min r.timestamp_ms m ≤ s.timestamp_ms) t
        (λ s p. omega arith) h.0,
  ),
  rw attains-cons (elim (Bool-cases (leb r.timestamp_ms m)) [
    | inl le ↦
        let e : min r.timestamp_ms m ≡ r.timestamp_ms = omega (arith, leb→le) in rw e (ground arith)
    | inr gt ↦ let e : min r.timestamp_ms m ≡ m = ground arith in rw e (ground (arith, h.1))
  ]),
)

IsOldest-min : (t : Receipts) → IsOldest t (min_timestamp t)
unfolding min_timestamp
IsOldest-min [] = refl
IsOldest-min (r ∷ t) = IsOldest-lower r t (min_timestamp t) (IsOldest-min t)

-- A prune reports how many rows it deleted, and the earliest timestamp that is left.
pub prune_report :
    (sql : Receipts) (bundle : Archive) (now_ms retention_ms : ℕ)
    → (length (prune_expired_receipts sql bundle now_ms retention_ms).0
          + (prune_expired_receipts sql bundle now_ms retention_ms).1.deleted
        ≡ length sql)
      × IsOldest
          (prune_expired_receipts sql bundle now_ms retention_ms).0
          (prune_expired_receipts sql bundle now_ms retention_ms).1.oldest_remaining_ms
unfolding prune_expired_receipts
prune_report sql bundle now_ms retention_ms = (length-delete_where _ sql, IsOldest-min _)
