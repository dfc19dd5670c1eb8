-- ===== src/Storage/PendingAttestations.antt =====
-- src/storage/pending-attestations.ts: the retry queue of attestation writes.
pub mod Schedule
use cloister.Prelude.{
  ℕ, zero, suc, ◌+◌, ◌-◌, ◌^◌, String, Bool, true, false, not, ◌&&◌, Option, none, some, List, [],
  ◌∷◌, leb, ltb, length, take, if◌then◌else◌, is_some, or_else,
}
use cloister.Prelude.Keys.{◌==◌, nat_eq, string_eq, pair_eq}
use cloister.Prelude.Sort.{sort}
use cloister.Table.{find, insert_or_ignore, select, delete_where, update}

abbrev pub retry_backoff_ms : List ℕ
retry_backoff_ms = 30000 ∷ 60000 ∷ 120000 ∷ 300000 ∷ 600000 ∷ []

abbrev pub max_retry_attempts : ℕ
max_retry_attempts = length retry_backoff_ms

-- Number.MAX_SAFE_INTEGER
abbrev pub max_safe_integer : ℕ
max_safe_integer = 2 ^ 53 - 1

pub record PendingAttestation : Type 0 where
  pub peer_fp : String
  pub content_hash : String
  pub scope : String
  pub cert : List ℕ
  pub sig : List ℕ
  pub attempts : ℕ
  pub next_retry_at : ℕ
  pub created_at : ℕ
  pub last_attempt_at : Option ℕ

abbrev pub Pending : Type 0
Pending = List PendingAttestation

abbrev pub PendingKey : Type 0
PendingKey = String × String

-- PRIMARY KEY (peer_fp, content_hash)
abbrev pub pending_key : PendingAttestation → PendingKey
pending_key r = (r.peer_fp, r.content_hash)

-- RETRY_BACKOFF_MS[attempts]!, read only below the length
abbrev pub backoff_at : ℕ → List ℕ → ℕ
backoff_at i [] = 0
backoff_at zero (ms ∷ rest) = ms
backoff_at (suc i) (ms ∷ rest) = backoff_at i rest

unfoldable pub backoff_next_retry : ℕ → ℕ → Option ℕ
backoff_next_retry attempts now_ms =
    if leb max_retry_attempts attempts
    then none
    else some (now_ms + backoff_at attempts retry_backoff_ms)

pub record EnqueueArgs : Type 0 where
  pub peer_fp : String
  pub content_hash : String
  pub scope : String
  pub cert : List ℕ
  pub sig : List ℕ
  pub now_ms : ℕ

-- The queue afterwards, and `enqueued`. The first backoff is never null.
unfoldable pub enqueue_pending : Pending → EnqueueArgs → Pending × Bool
unfolding backoff_next_retry
enqueue_pending sql args = (
  insert_or_ignore pending_key
      (record {
        peer_fp = args.peer_fp;
        content_hash = args.content_hash;
        scope = args.scope;
        cert = args.cert;
        sig = args.sig;
        attempts = 0;
        next_retry_at = or_else (backoff_next_retry 0 args.now_ms) 0;
        created_at = args.now_ms;
        last_attempt_at = none;
      })
      sql,
  not (is_some (find pending_key (args.peer_fp, args.content_hash) sql)),
)

-- WHERE next_retry_at <= now AND attempts < 5
abbrev pub is_due : ℕ → PendingAttestation → Bool
is_due now_ms r = leb r.next_retry_at now_ms && ltb r.attempts max_retry_attempts

-- ORDER BY next_retry_at ASC LIMIT limit
unfoldable pub claim_retry_batch : Pending → ℕ → ℕ → List PendingAttestation
claim_retry_batch sql now_ms limit =
    take limit (sort (λ a b. leb a.next_retry_at b.next_retry_at) (select (is_due now_ms) sql))

-- The queue afterwards, and `deleted`.
unfoldable pub commit_pending : Pending → String → String → Pending × Bool
commit_pending sql peer_fp content_hash = (
  delete_where (λ r. pending_key r == (peer_fp, content_hash)) sql,
  length (select (λ r. pending_key r == (peer_fp, content_hash)) sql) == 1,
)

-- SET attempts, next_retry_at, last_attempt_at
abbrev pub set_attempt : ℕ → ℕ → ℕ → PendingAttestation → PendingAttestation
set_attempt attempts next now_ms r = record r {
  attempts = attempts;
  next_retry_at = next;
  last_attempt_at = some now_ms;
}

-- The queue afterwards, with `newAttempts` and `nextRetryAt`.
unfoldable pub record_failed_attempt : Pending → String → String → ℕ → Pending × (ℕ × Option ℕ)
unfolding backoff_next_retry
record_failed_attempt sql peer_fp content_hash now_ms =
    elim (find pending_key (peer_fp, content_hash) sql) [
      | none ↦ (sql, (0, none))
      | some current ↦ (
        update pending_key (peer_fp, content_hash)
            (set_attempt (current.attempts + 1)
              (or_else (backoff_next_retry (current.attempts + 1) now_ms) max_safe_integer) now_ms)
            sql,
        (current.attempts + 1, backoff_next_retry (current.attempts + 1) now_ms),
      )
    ]

-- ORDER BY created_at ASC
unfoldable pub list_pending_for_peer : Pending → String → List PendingAttestation
list_pending_for_peer sql peer_fp =
    sort (λ a b. leb a.created_at b.created_at) (select (λ r. r.peer_fp == peer_fp) sql)
