-- ===== src/Storage/SeenNonces.antt =====
-- src/storage/seen-nonces.ts: the replay ledger keyed on (cert_fp, nonce).
pub mod Replay
use cloister.Prelude.{ℕ, String, Bool, not, List, length, ltb, is_some}
use cloister.Prelude.Keys.{Eq, pair_eq, string_eq}
use cloister.Table.{select, delete_where, find, insert_or_ignore}

-- A row of `seen_nonces`.
pub record SeenNonce : Type 0 where
  pub cert_fp : String
  pub nonce : String
  pub ts_ms : ℕ

abbrev pub Ledger : Type 0
Ledger = List SeenNonce

-- PRIMARY KEY (cert_fp, nonce)
abbrev pub nonce_key : SeenNonce → String × String
nonce_key r = (r.cert_fp, r.nonce)

-- The ledger afterwards, and `fresh`: RETURNING lists the row exactly if it was inserted.
unfoldable pub record_seen_nonce : Ledger → String → String → ℕ → Ledger × Bool
record_seen_nonce sql cert_fp nonce ts_ms = (
  insert_or_ignore nonce_key (record { cert_fp = cert_fp; nonce = nonce; ts_ms = ts_ms }) sql,
  not (is_some (find nonce_key (cert_fp, nonce) sql)),
)

-- The ledger afterwards, and the number of rows deleted.
unfoldable pub prune_seen_nonces_before : Ledger → ℕ → Ledger × ℕ
prune_seen_nonces_before sql before_ts_ms = (
  delete_where (λ r. ltb r.ts_ms before_ts_ms) sql,
  length (select (λ r. ltb r.ts_ms before_ts_ms) sql),
)
