-- ===== src/Storage/PendingAttestations/Schedule.antt =====
-- The retry schedule: what each operation does to a row, and which rows a batch has.
use mathlib.Core.Option
use cloister.Prelude.{
  ℕ, ◌+◌, ◌<◌, ◌≤◌, ◌≡◌, refl, subst, ◌∙◌, String, Bool, not, ◌&&◌, Option, none, some, length-take,
  take_all, min, arith, leb, length, All, if◌then◌else◌, Bool-cases, Option-cases, inl, inr,
  is_some, or_else, ◌⊎◌,
}
use cloister.Prelude.Keys.{◌==◌, nat_eq, string_eq, pair_eq, ==_iff}
use mathlib.Core.List.{Perm}
use cloister.Prelude.Sort.{sort, sort-perm, IsSorted, sort-IsSorted, length-sort, IsSorted-take}
use cloister.Table.{find, select}
use cloister.Table.Laws.{
  find-insert_or_ignore, find-update, delete_where-All, insert_or_ignore-All, update-All,
}
use cloister.Storage.PendingAttestations.{
  PendingAttestation, Pending, PendingKey, pending_key, max_retry_attempts, max_safe_integer,
  backoff_next_retry, EnqueueArgs, enqueue_pending, is_due, claim_retry_batch, commit_pending,
  record_failed_attempt, set_attempt,
}

-- The schedule in words: 30 s, 1 min, 2 min, 5 min and 10 min after the n-th failure, then never.
abbrev pub delay_after : ℕ → Option ℕ
delay_after n =
    if n == 0
    then some 30000
    else if n == 1
    then some 60000
    else if n == 2
    then some 120000
    else if n == 3
    then some 300000
    else if n == 4
    then some 600000
    else none

abbrev pub later : ℕ → Option ℕ → Option ℕ
later now_ms none = none
later now_ms (some d) = some (now_ms + d)

backoff_lem : (n now_ms : ℕ) → backoff_next_retry n now_ms ≡ later now_ms (delay_after n)
unfolding backoff_next_retry
backoff_lem n now_ms = ground arith

-- A row in which the sentinel stands exactly once the attempts are used up.
abbrev pub IsScheduled : PendingAttestation → Type 0
IsScheduled r =
    ((max_retry_attempts ≤ r.attempts) × (r.next_retry_at ≡ max_safe_integer))
    ⊎ ((r.attempts < max_retry_attempts) × (r.next_retry_at < max_safe_integer))

-- The order of a batch.
abbrev pub by_retry_time : PendingAttestation → PendingAttestation → Bool
by_retry_time a b = leb a.next_retry_at b.next_retry_at

-- The row that a first failure leaves in the queue.
abbrev pub first_row : EnqueueArgs → PendingAttestation
first_row args = record {
  peer_fp = args.peer_fp;
  content_hash = args.content_hash;
  scope = args.scope;
  cert = args.cert;
  sig = args.sig;
  attempts = 0;
  next_retry_at = args.now_ms + 30000;
  created_at = args.now_ms;
  last_attempt_at = none;
}

-- Enqueueing answers true exactly if the write was not pending. Then it adds the first row, due
-- after 30 s; a row that is pending already keeps its attempts, and every other key is unchanged.
pub enqueue_lem :
    (sql : Pending) (args : EnqueueArgs) (k : PendingKey)
    → ((enqueue_pending sql args).1
        ≡ not (is_some (find pending_key (args.peer_fp, args.content_hash) sql)))
      × (find pending_key k (enqueue_pending sql args).0 ≡ (
          if pending_key (first_row args) == k && not (is_some (find pending_key k sql))
          then some (first_row args)
          else find pending_key k sql))
unfolding enqueue_pending
enqueue_lem sql args k = (refl, find-insert_or_ignore pending_key (first_row args) k sql)

-- The row after one more failed attempt at a time.
abbrev pub failed_row : ℕ → PendingAttestation → PendingAttestation
failed_row now_ms r = record r {
  attempts = r.attempts + 1;
  next_retry_at = or_else (later now_ms (delay_after (r.attempts + 1))) max_safe_integer;
  last_attempt_at = some now_ms;
}

-- What a failed attempt reports: no attempt if the write is not pending.
abbrev pub report : ℕ → Option PendingAttestation → ℕ × Option ℕ
report now_ms none = (0, none)
report now_ms (some r) = (r.attempts + 1, later now_ms (delay_after (r.attempts + 1)))

module _ (sql : Pending) (key k : PendingKey) (now_ms : ℕ) where
  abbrev advanced : Option PendingAttestation
  advanced =
      if key == k
      then Option.map (failed_row now_ms) (find pending_key k sql)
      else find pending_key k sql

  absent : find pending_key key sql ≡ none → find pending_key k sql ≡ advanced
  absent e = elim (Bool-cases (key == k)) [
    | inl same ↦
        let e' : find pending_key k sql ≡ none =
          subst (λ j. find pending_key j sql ≡ none) ((==_iff key k).0 same) e in
        rw (same, e')
    | inr other ↦ rw other
  ]

  present :
      (r : PendingAttestation)
      → find pending_key key sql ≡ some r
      → (if key == k
          then Option.map
              (set_attempt (r.attempts + 1) (failed_row now_ms r).next_retry_at now_ms)
              (find pending_key k sql)
          else find pending_key k sql)
        ≡ advanced
  present r e = elim (Bool-cases (key == k)) [
    | inl same ↦
        let e' : find pending_key k sql ≡ some r =
          subst (λ j. find pending_key j sql ≡ some r) ((==_iff key k).0 same) e in
        rw (same, e')
    | inr other ↦ rw other
  ]

-- A failed attempt moves its own row to the next place of the schedule, reports that place, and
-- changes no other row; on a write that is not pending it reports no attempt and changes nothing.
pub record_failed_lem :
    (sql : Pending) (peer_fp content_hash : String) (now_ms : ℕ) (k : PendingKey)
    → ((record_failed_attempt sql peer_fp content_hash now_ms).1
        ≡ report now_ms (find pending_key (peer_fp, content_hash) sql))
      × (find pending_key k (record_failed_attempt sql peer_fp content_hash now_ms).0 ≡ (
          if (peer_fp, content_hash) == k
          then Option.map (failed_row now_ms) (find pending_key k sql)
          else find pending_key k sql))
unfolding record_failed_attempt
record_failed_lem sql peer_fp content_hash now_ms k =
    let key : PendingKey = (peer_fp, content_hash) in
    elim (Option-cases (find pending_key key sql)) [
      | inl e ↦ rw (e, record_failed_attempt) (refl, absent sql key k now_ms e)
      | inr (r, e) ↦
          rw (e, record_failed_attempt)
            (
              rw backoff_lem,
              rw backoff_lem (
                  find-update pending_key
                    (set_attempt (r.attempts + 1) (failed_row now_ms r).next_retry_at now_ms) key k
                    sql (λ s. refl)
                  ∙ present sql key k now_ms r e),
            )
    ]

-- A batch is in the order of the retry times and holds as many of the due rows as the limit has
-- room for.
pub claim_retry_batch_lem :
    (sql : Pending) (now_ms limit : ℕ)
    → IsSorted by_retry_time (claim_retry_batch sql now_ms limit)
      × (length (claim_retry_batch sql now_ms limit)
          ≡ min limit (length (select (is_due now_ms) sql)))
unfolding claim_retry_batch
claim_retry_batch_lem sql now_ms limit =
    let due = select (is_due now_ms) sql in
    let sorted = sort by_retry_time due in
    (
      IsSorted-take _ limit sorted
          (sort-IsSorted _ (λ x y h. ground arith) (λ x y z h k. ground arith) due),
      omega (arith, length-take limit sorted, length-sort by_retry_time due),
    )

-- Where the limit has room for the rows that are due, a batch holds each of them once, and no others.
pub claim_all_due :
    (sql : Pending) (now_ms limit : ℕ)
    → length (select (is_due now_ms) sql) ≤ limit
    → Perm (claim_retry_batch sql now_ms limit) (select (is_due now_ms) sql)
unfolding claim_retry_batch
claim_all_due sql now_ms limit room =
    let due = select (is_due now_ms) sql in
    rw (take_all limit (sort by_retry_time due) (omega (arith, length-sort by_retry_time due)))
      (sort-perm _ due)

-- Before the sentinel's time, a scheduled row is due exactly when its retry time has come: the
-- sentinel alone keeps a row whose attempts are used up out of every batch.
pub is_due_of_IsScheduled :
    (r : PendingAttestation) (now_ms : ℕ)
    → IsScheduled r
    → now_ms < max_safe_integer
    → is_due now_ms r ≡ leb r.next_retry_at now_ms
is_due_of_IsScheduled r now_ms (inl (used, e)) lt = ground arith
is_due_of_IsScheduled r now_ms (inr (left, le)) lt = ground arith

IsScheduled-set_attempt :
    (n now_ms : ℕ) (r : PendingAttestation)
    → now_ms + 600000 < max_safe_integer
    → IsScheduled (set_attempt n (or_else (backoff_next_retry n now_ms) max_safe_integer) now_ms r)
IsScheduled-set_attempt n now_ms r lt =
    rw backoff_lem (elim (Bool-cases (leb max_retry_attempts n)) [
      | inl e ↦ inl (ground arith, ground arith)
      | inr e ↦ inr (ground arith, ground arith)
    ])

pub enqueue-IsScheduled :
    (sql : Pending) (args : EnqueueArgs)
    → args.now_ms + 600000 < max_safe_integer
    → All IsScheduled sql
    → All IsScheduled (enqueue_pending sql args).0
unfolding enqueue_pending
enqueue-IsScheduled sql args lt h =
    insert_or_ignore-All IsScheduled pending_key (first_row args) sql
      (inr (omega arith, omega arith)) h

pub commit-IsScheduled :
    (sql : Pending) (peer_fp content_hash : String)
    → All IsScheduled sql
    → All IsScheduled (commit_pending sql peer_fp content_hash).0
unfolding commit_pending
commit-IsScheduled sql peer_fp content_hash = delete_where-All IsScheduled _ sql

-- A failed attempt, at a time whose longest backoff is still below the sentinel, leaves every row with
-- the sentinel exactly if its attempts are used up, where that held before.
pub record_failed-IsScheduled :
    (sql : Pending) (peer_fp content_hash : String) (now_ms : ℕ)
    → now_ms + 600000 < max_safe_integer
    → All IsScheduled sql
    → All IsScheduled (record_failed_attempt sql peer_fp content_hash now_ms).0
unfolding record_failed_attempt
record_failed-IsScheduled sql peer_fp content_hash now_ms lt h =
    elim (Option-cases (find pending_key (peer_fp, content_hash) sql)) [
      | inl e ↦ rw (e, record_failed_attempt) h
      | inr (r, e) ↦
          rw (e, record_failed_attempt)
            (update-All IsScheduled pending_key (peer_fp, content_hash) _ sql
              (λ s. IsScheduled-set_attempt (r.attempts + 1) now_ms s lt) h)
    ]
