-- ===== src/Storage/SeenNonces/Replay.antt =====
-- The ledger over sequences of requests, and pruning.
use cloister.Prelude.{
  ℕ, ◌+◌, ◌≡◌, refl, String, Bool, true, false, not, Option, none, some, List, [], ◌∷◌, arith,
  length, ltb, leb, is_some, if◌then◌else◌,
}
use cloister.Prelude.Keys.{◌==◌, pair_eq, string_eq}
use cloister.Table.{find, HasDistinctKeys}
use cloister.Table.Laws.{
  find-insert_or_ignore, find-delete_where_distinct, length-delete_where,
  insert_or_ignore-HasDistinctKeys, delete_where-HasDistinctKeys,
}
use cloister.Storage.SeenNonces.{
  SeenNonce, Ledger, nonce_key, record_seen_nonce, prune_seen_nonces_before,
}

-- A request as the ledger sees it.
abbrev pub Request : Type 0
Request = (String × String) × ℕ

-- The answers (`fresh`) that a ledger gives to the requests one after another.
pub answers : Ledger → List Request → List Bool
answers sql [] = []
answers sql (((cert, nonce), ts) ∷ rest) =
    let (sql', fresh) = record_seen_nonce sql cert nonce ts in fresh ∷ answers sql' rest

-- The specification: a request is fresh if its key was not seen before it.
abbrev pub seen_in : String × String → List (String × String) → Bool
seen_in k [] = false
seen_in k (j ∷ seen) = if j == k then true else seen_in k seen

pub first_sightings : List (String × String) → List Request → List Bool
first_sightings seen [] = []
first_sightings seen ((k, ts) ∷ rest) = not (seen_in k seen) ∷ first_sightings (k ∷ seen) rest

-- The ledger holds exactly the keys of `seen`.
abbrev pub Represents : Ledger → List (String × String) → Type 0
Represents sql seen = (k : String × String) → is_some (find nonce_key k sql) ≡ seen_in k seen

pub Represents-record :
    (sql : Ledger) (seen : List (String × String)) (cert nonce : String) (ts : ℕ)
    → Represents sql seen
    → Represents (record_seen_nonce sql cert nonce ts).0 ((cert, nonce) ∷ seen)
unfolding record_seen_nonce
Represents-record sql seen cert nonce ts h k =
    rw
      (find-insert_or_ignore nonce_key (record { cert_fp = cert; nonce = nonce; ts_ms = ts }) k sql)
      (ground (arith, h k, pair_eq.beq_iff (cert, nonce) k))

answers-eq-first_sightings :
    (sql : Ledger) (seen : List (String × String)) (requests : List Request)
    → Represents sql seen
    → answers sql requests ≡ first_sightings seen requests
unfolding answers first_sightings
answers-eq-first_sightings sql seen [] h = refl
answers-eq-first_sightings sql seen (((cert, nonce), ts) ∷ rest) h = ground (
  arith,
  h (cert, nonce),
  opened,
  answers-eq-first_sightings (record_seen_nonce sql cert nonce ts).0 ((cert, nonce) ∷ seen) rest
      (Represents-record sql seen cert nonce ts h),
)
  where
    opened :
        (record_seen_nonce sql cert nonce ts).1 ≡ not (is_some (find nonce_key (cert, nonce) sql))
    opened = unfold record_seen_nonce in refl

-- From an empty ledger, whatever the requests, each is answered fresh exactly if no earlier request
-- had its (cert_fp, nonce).
pub fresh_iff_first : (requests : List Request) → answers [] requests ≡ first_sightings [] requests
unfolding find
fresh_iff_first requests = answers-eq-first_sightings [] [] requests (λ k. refl)

-- The row is there, and not older than the cutoff.
abbrev pub held_since : ℕ → Option SeenNonce → Bool
held_since before none = false
held_since before (some r) = leb before r.ts_ms

-- In a ledger with distinct keys, pruning at a cutoff forgets a (cert_fp, nonce) exactly if it was
-- recorded before the cutoff: the request is replayable again just then.
pub fresh_after_prune :
    (sql : Ledger) (before : ℕ) (cert nonce : String) (ts : ℕ)
    → HasDistinctKeys nonce_key sql
    → (record_seen_nonce (prune_seen_nonces_before sql before).0 cert nonce ts).1
      ≡ not (held_since before (find nonce_key (cert, nonce) sql))
unfolding record_seen_nonce prune_seen_nonces_before
fresh_after_prune sql before cert nonce ts h =
    rw (find-delete_where_distinct nonce_key (λ r. ltb r.ts_ms before) (cert, nonce) sql h)
      (ground arith)

-- Pruning reports how many rows it took away.
pub length-prune :
    (sql : Ledger) (before : ℕ)
    → length (prune_seen_nonces_before sql before).0 + (prune_seen_nonces_before sql before).1
      ≡ length sql
unfolding prune_seen_nonces_before
length-prune sql before = length-delete_where (λ r. ltb r.ts_ms before) sql

-- Recording and pruning keep the primary key's constraint.
pub record-HasDistinctKeys :
    (sql : Ledger) (cert nonce : String) (ts : ℕ)
    → HasDistinctKeys nonce_key sql
    → HasDistinctKeys nonce_key (record_seen_nonce sql cert nonce ts).0
unfolding record_seen_nonce
record-HasDistinctKeys sql cert nonce ts = insert_or_ignore-HasDistinctKeys nonce_key _ sql

pub prune-HasDistinctKeys :
    (sql : Ledger) (before : ℕ)
    → HasDistinctKeys nonce_key sql
    → HasDistinctKeys nonce_key (prune_seen_nonces_before sql before).0
unfolding prune_seen_nonces_before
prune-HasDistinctKeys sql before = delete_where-HasDistinctKeys nonce_key _ sql
