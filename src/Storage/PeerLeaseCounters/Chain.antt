-- ===== src/Storage/PeerLeaseCounters/Chain.antt =====
-- The counters of all peers after a sequence of observations, against a fold over each peer's own.
use mathlib.Core.List.{foldl}
use cloister.Prelude.{
  ℕ, ◌+◌, ◌≡◌, refl, ap, ◌∙◌, String, List, [], ◌∷◌, arith, if◌then◌else◌, Bool-cases, inl, inr,
}
use cloister.Prelude.Keys.{◌==◌, ==_iff, ==_refl, nat_eq, string_eq}
use cloister.Prelude.Results.{Result, ok, ◌>>=◌}
use cloister.Table.Laws.{find-upsert}
use cloister.Storage.PeerLeaseCounters.{
  Counters, peer_key, ChainError, read_lease_counter, write_lease_counter_row, prev_seq_of,
  prev_hash_of, next_chain_hash, assert_chain_step, compute_next_lease_step, apply_lease_counter,
}

-- One authenticated request.
pub record Observation : Type 0 where
  pub peer : String
  pub cert : String
  pub nonce : String
  pub ts : ℕ

-- A peer's place in its chain: the number of its requests, and the hash over them.
abbrev pub Position : Type 0
Position = ℕ × String

abbrev pub position : Counters → String → Position
position sql peer_fp = let r = read_lease_counter sql peer_fp in (prev_seq_of r, prev_hash_of r)

-- The next row's position is the place of the row that `write_lease_counter_row` writes.
pub position-write :
    (sql : Counters) (peer cert : String) (ts seq : ℕ) (hash : String) (p : String)
    → position (write_lease_counter_row sql peer cert ts seq hash) p
      ≡ (if peer == p then (seq, hash) else position sql p)
unfolding write_lease_counter_row read_lease_counter
position-write sql peer cert ts seq hash p =
    rw
      (find-upsert peer_key
        (record {
          peer_fingerprint = peer;
          seq = seq;
          last_chain_hash = hash;
          last_cert_fp = cert;
          updated_at = ts;
        })
        p sql)
      (ground arith)

module _ (sha256 : String → List ℕ) where
  -- The integrity check of a step never fails, and the step extends the peer's position by one.
  pub compute_next_lease_step_lem :
      (sql : Counters) (peer cert nonce : String) (ts : ℕ)
      → compute_next_lease_step sha256 sql peer cert nonce ts
        ≡ ok (record {
          prev_seq = (position sql peer).0;
          prev_hash = (position sql peer).1;
          seq = (position sql peer).0 + 1;
          last_chain_hash = next_chain_hash sha256 (position sql peer).1 cert nonce ts;
        })
  unfolding compute_next_lease_step assert_chain_step
  compute_next_lease_step_lem sql peer cert nonce ts =
      let hash = next_chain_hash sha256 (position sql peer).1 cert nonce ts in
      ground (arith, string_eq.beq_iff hash hash)

  -- The independent description: fold the peer's own observations, and skip the others.
  abbrev pub extend : String → Position → Observation → Position
  extend p at o =
      if o.peer == p then (at.0 + 1, next_chain_hash sha256 at.1 o.cert o.nonce o.ts) else at

  -- The counters after one observation.
  abbrev pub observed : Counters → Observation → Counters
  observed sql o =
      let at = extend o.peer (position sql o.peer) o in
      write_lease_counter_row sql o.peer o.cert o.ts at.0 at.1

  pub position-observed :
      (sql : Counters) (o : Observation) (p : String)
      → position (observed sql o) p ≡ extend p (position sql p) o
  position-observed sql o p = rw position-write (elim (Bool-cases (o.peer == p)) [
    | inl same ↦ let e = (==_iff o.peer p).0 same in rw (e, ==_refl p)
    | inr other ↦ rw other
  ])

  pub apply_lease_counter_lem :
      (sql : Counters) (o : Observation)
      → apply_lease_counter sha256 sql o.peer o.cert o.nonce o.ts
        ≡ ok (observed sql o, extend o.peer (position sql o.peer) o)
  unfolding apply_lease_counter
  apply_lease_counter_lem sql o = rw (compute_next_lease_step_lem, ==_refl o.peer)

  -- `apply_lease_counter` for each observation in turn.
  pub observe_all : Counters → List Observation → Result ChainError Counters
  observe_all sql [] = ok sql
  observe_all sql (o ∷ rest) = do
    applied ← apply_lease_counter sha256 sql o.peer o.cert o.nonce o.ts
    observe_all applied.0 rest

  -- Any sequence of observations is applied without an integrity error, and leaves each peer at the
  -- place that folding its own observations, from where it stood, takes it to.
  pub observe_all_lem :
      (sql : Counters) (observations : List Observation)
      → (sql' : Counters) × (observe_all sql observations ≡ ok sql')
        × ((p : String) → position sql' p ≡ foldl (extend p) (position sql p) observations)
  unfolding observe_all
  observe_all_lem sql [] = (sql, refl, λ p. refl)
  observe_all_lem sql (o ∷ rest) =
      let (sql', ran, h) = observe_all_lem (observed sql o) rest in
      (
        sql',
        rw apply_lease_counter_lem ran,
        λ p. h p ∙ ap (λ at. foldl (extend p) at rest) (position-observed sql o p),
      )
