-- ===== src/TrustStore/Lease.antt =====
-- The lease RPC: replay check and counter in one transaction.
use mathlib.Core.List.{foldl}
use cloister.Prelude.{
  ℕ, ◌≡◌, refl, sym, subst, ap, ◌∙◌, String, Bool, true, false, List, [], ◌∷◌, is_some,
  if◌then◌else◌, Bool-cases, inl, inr,
}
use cloister.Prelude.Keys.{◌==◌, ==_iff, ==_refl, string_eq, pair_eq}
use cloister.Prelude.Results.{Result, ok, ◌>>=◌}
use cloister.Table.{find}
use cloister.Storage.SeenNonces.{nonce_key, record_seen_nonce}
use cloister.Storage.SeenNonces.Replay.{seen_in, Represents, Represents-record}
use cloister.Storage.PeerLeaseCounters.{ChainError, write_lease_counter_row}
use cloister.Storage.PeerLeaseCounters.Chain.{
  Observation, Position, position, extend, observed, position-observed, compute_next_lease_step_lem,
}
use cloister.TrustStore.{
  TrustStore, LeaseArgs, replayed, advanced, transaction_sync, record_and_advance,
  verify_lease_and_advance_chain,
}

abbrev pub observation : LeaseArgs → Observation
observation args = record {
  peer = args.peer_fp;
  cert = args.cert_fp;
  nonce = args.nonce;
  ts = args.ts;
}

-- The ledger holds the request's (cert_fp, nonce).
abbrev pub is_replay : TrustStore → LeaseArgs → Bool
is_replay this args = is_some (find nonce_key (args.cert_fp, args.nonce) this.seen_nonces)

-- The transaction writes both rows, or neither.
transaction_lem :
    (this : TrustStore) (args : LeaseArgs) (seq : ℕ) (hash : String)
    → transaction_sync this (record_and_advance args seq hash) ≡ (
        if is_replay this args then (this, true) else (
          record this {
            seen_nonces = (record_seen_nonce this.seen_nonces args.cert_fp args.nonce args.ts).0;
            lease_counters =
                write_lease_counter_row this.lease_counters args.peer_fp args.cert_fp args.ts seq
                  hash;
          },
          false,
        ))
transaction_lem this args seq hash =
    unfold transaction_sync record_and_advance record_seen_nonce in
    elim (Bool-cases (is_replay this args)) [
      | inl e ↦ rw (e, transaction_sync)
      | inr e ↦ rw (e, transaction_sync)
    ]

-- To see a key again changes nothing.
Represents-replay :
    (this : TrustStore) (args : LeaseArgs) (seen : List (String × String))
    → Represents this.seen_nonces seen
    → is_replay this args ≡ true
    → Represents this.seen_nonces ((args.cert_fp, args.nonce) ∷ seen)
Represents-replay this args seen h e k = elim (Bool-cases ((args.cert_fp, args.nonce) == k)) [
  | inl same ↦ rw same (
      subst (λ j. is_some (find nonce_key j this.seen_nonces) ≡ true)
        ((==_iff (args.cert_fp, args.nonce) k).0 same) e)
  | inr other ↦ rw other (h k)
]

module _ (sha256 : String → List ℕ) where
  -- The state after a fresh request: the nonce is recorded and the peer's counter is one further.
  abbrev pub accepted_state : TrustStore → LeaseArgs → TrustStore
  accepted_state this args = record this {
    seen_nonces = (record_seen_nonce this.seen_nonces args.cert_fp args.nonce args.ts).0;
    lease_counters = observed sha256 this.lease_counters (observation args);
  }

  abbrev pub next_position : TrustStore → LeaseArgs → Position
  next_position this args =
      extend sha256 args.peer_fp (position this.lease_counters args.peer_fp) (observation args)

  -- The lease RPC never fails. A replay is answered as such and changes no table at all; any other
  -- request is recorded and extends its peer's chain by one, both or neither.
  pub verify_lease_lem :
      (this : TrustStore) (args : LeaseArgs)
      → verify_lease_and_advance_chain sha256 this args
        ≡ ok (
            if is_replay this args then (this, replayed) else (
              accepted_state this args,
              advanced (next_position this args).0 (next_position this args).1,
            ))
  unfolding verify_lease_and_advance_chain
  verify_lease_lem this args =
      rw
        (compute_next_lease_step_lem sha256 this.lease_counters args.peer_fp args.cert_fp args.nonce
          args.ts)
        (rw transaction_lem (elim (Bool-cases (is_replay this args)) [
          | inl e ↦ rw e
          | inr e ↦ rw (e, ==_refl args.peer_fp)
        ]))

  -- The requests answered one after another.
  pub verify_all : TrustStore → List LeaseArgs → Result ChainError TrustStore
  verify_all this [] = ok this
  verify_all this (args ∷ rest) = do
    (this', verdict) ← verify_lease_and_advance_chain sha256 this args
    verify_all this' rest

  -- Those whose (cert_fp, nonce) was not seen before.
  abbrev pub first_of_each : List (String × String) → List LeaseArgs → List Observation
  first_of_each seen [] = []
  first_of_each seen (args ∷ rest) =
      let others = first_of_each ((args.cert_fp, args.nonce) ∷ seen) rest in
      if seen_in (args.cert_fp, args.nonce) seen then others else observation args ∷ others

  -- For any sequence of requests to a store whose ledger holds the keys `seen`, the RPC never fails,
  -- and each peer's counter ends where folding its own first-seen requests takes it: replays leave
  -- no trace in any chain, and no accepted request is missing from its peer's.
  pub verify_all_lem :
      (this : TrustStore) (seen : List (String × String)) (requests : List LeaseArgs)
      → Represents this.seen_nonces seen
      → (this' : TrustStore) × (verify_all this requests ≡ ok this')
        × ((p : String)
            → position this'.lease_counters p
              ≡ foldl
                  (extend sha256 p)
                  (position this.lease_counters p)
                  (first_of_each seen requests))
  unfolding verify_all
  verify_all_lem this seen [] h = (this, refl, λ p. refl)
  verify_all_lem this seen (args ∷ rest) h = elim (Bool-cases (is_replay this args)) [
    | inl e ↦
        let (this', ran, ends) =
          verify_all_lem this ((args.cert_fp, args.nonce) ∷ seen) rest
            (Represents-replay this args seen h e) in
        (
          this',
          rw (verify_lease_lem, e) ran,
          λ p. rw (sym (h (args.cert_fp, args.nonce)) ∙ e) (ends p),
        )
    | inr e ↦
        let (this', ran, ends) =
          verify_all_lem (accepted_state this args) ((args.cert_fp, args.nonce) ∷ seen) rest
            (Represents-record this.seen_nonces seen args.cert_fp args.nonce args.ts h) in
        (
          this',
          rw (verify_lease_lem, e) ran,
          λ p. rw (sym (h (args.cert_fp, args.nonce)) ∙ e) (
              ends p
              ∙ ap
                  (λ at.
                    foldl (extend sha256 p) at
                      (first_of_each ((args.cert_fp, args.nonce) ∷ seen) rest))
                  (position-observed sha256 this.lease_counters (observation args) p)),
        )
  ]
