-- ===== src/TrustStore/Sweep.antt =====
-- The hourly sweep and the replay check.
use cloister.Prelude.{
  ℕ, ◌+◌, ◌-◌, ◌≤◌, ◌≡◌, refl, sym, ◌∙◌, subst, Bool, true, false, some, String, List, arith,
  is_some, ltb,
}
use cloister.Prelude.Keys.{==_refl, string_eq, pair_eq}
use cloister.Prelude.Results.{Result, ok}
use cloister.Table.{find, HasDistinctKeys}
use cloister.Table.Laws.{find-insert_or_ignore, find-delete_where_distinct}
use cloister.Storage.SeenNonces.{
  SeenNonce, Ledger, nonce_key, record_seen_nonce, prune_seen_nonces_before,
}
use cloister.Storage.SeenNonces.Replay.{record-HasDistinctKeys}
use cloister.Storage.PeerLeaseCounters.{ChainError}
use cloister.TrustStore.{
  TrustStore, SweepFaults, LeaseArgs, LeaseVerdict, replayed, advanced, sweep_nonces,
  sweep_receipts, alarm, alarm_interval_ms, seen_nonces_retention_ms,
  verify_lease_and_advance_chain,
}
use cloister.Storage.PeerLeaseCounters.Chain.{Position}
use cloister.TrustStore.Lease.{is_replay, next_position, accepted_state, verify_lease_lem}

-- The row that a fresh request leaves in the ledger.
abbrev pub recorded : LeaseArgs → SeenNonce
recorded args = record { cert_fp = args.cert_fp; nonce = args.nonce; ts_ms = args.ts }

pub found_recorded :
    (sql : Ledger) (args : LeaseArgs)
    → is_some (find nonce_key (args.cert_fp, args.nonce) sql) ≡ false
    → find nonce_key
        (args.cert_fp, args.nonce)
        (record_seen_nonce sql args.cert_fp args.nonce args.ts).0
      ≡ some (recorded args)
unfolding record_seen_nonce
found_recorded sql args fresh =
    find-insert_or_ignore nonce_key (recorded args) (nonce_key (recorded args)) sql
    ∙ rw (fresh, ==_refl (nonce_key (recorded args)))

found_after_sweep :
    (this : TrustStore) (k : String × String) (row : SeenNonce) (now_ms : ℕ) (throws : Bool)
    → HasDistinctKeys nonce_key this.seen_nonces
    → find nonce_key k this.seen_nonces ≡ some row
    → now_ms ≤ row.ts_ms + seen_nonces_retention_ms
    → find nonce_key k (sweep_nonces this now_ms throws).0.seen_nonces ≡ some row
found_after_sweep this k row now_ms true h e le = e
found_after_sweep this k row now_ms false h e le =
    unfold prune_seen_nonces_before in
    find-delete_where_distinct nonce_key (λ r. ltb r.ts_ms (now_ms - seen_nonces_retention_ms)) k
      this.seen_nonces h
    ∙ rw e (ground arith)

seen_nonces-sweep_receipts :
    (this : TrustStore) (now_ms : ℕ) (throws : Bool)
    → (sweep_receipts this now_ms throws).0.seen_nonces ≡ this.seen_nonces
seen_nonces-sweep_receipts this now_ms true = refl
seen_nonces-sweep_receipts this now_ms false = refl

pub seen_nonces-alarm :
    (this : TrustStore) (faults : SweepFaults) (now_ms rearmed_ms : ℕ)
    → (alarm this faults now_ms rearmed_ms).0.seen_nonces
      ≡ (sweep_nonces this now_ms faults.nonces_throw).0.seen_nonces
unfolding alarm
seen_nonces-alarm this faults now_ms rearmed_ms =
    seen_nonces-sweep_receipts (sweep_nonces this now_ms faults.nonces_throw).0 now_ms
      faults.receipts_throw

-- The sweep re-arms the alarm one interval after it, whichever of its statements throw.
pub alarm_rearmed :
    (this : TrustStore) (faults : SweepFaults) (now_ms rearmed_ms : ℕ)
    → (alarm this faults now_ms rearmed_ms).0.alarm_at ≡ some (rearmed_ms + alarm_interval_ms)
unfolding alarm
alarm_rearmed this faults now_ms rearmed_ms = refl

state_of_ok :
    {p q : TrustStore × LeaseVerdict}
    → ◌≡◌ {A = Result ChainError (TrustStore × LeaseVerdict)} (ok p) (ok q)
    → p.0 ≡ q.0
state_of_ok e = cc

record-HasDistinctNonces :
    (sql : Ledger) (args : LeaseArgs)
    → HasDistinctKeys nonce_key sql
    → HasDistinctKeys nonce_key (record_seen_nonce sql args.cert_fp args.nonce args.ts).0
record-HasDistinctNonces sql args = record-HasDistinctKeys sql args.cert_fp args.nonce args.ts

-- In a store whose ledger has distinct keys, once a request that was no replay was answered, the same
-- (cert_fp, nonce), from any peer and at any time, is answered as a replay after any sweep that runs up
-- to the retention after the request's time, whichever of the sweep's statements throw.
pub replay_after_sweep :
    (sha256 : String → List ℕ) (this this' : TrustStore) (args : LeaseArgs) (verdict : LeaseVerdict)
    (faults : SweepFaults) (now_ms rearmed_ms : ℕ) (peer_fp : String) (ts : ℕ)
    → HasDistinctKeys nonce_key this.seen_nonces
    → is_replay this args ≡ false
    → verify_lease_and_advance_chain sha256 this args ≡ ok (this', verdict)
    → now_ms ≤ args.ts + seen_nonces_retention_ms
    → let swept = (alarm this' faults now_ms rearmed_ms).0 in
      verify_lease_and_advance_chain sha256 swept (record args { peer_fp = peer_fp; ts = ts })
      ≡ ok (swept, replayed)
replay_after_sweep sha256 this this' args verdict faults now_ms rearmed_ms peer_fp ts h fresh e le =
    let accepted : TrustStore = accepted_state sha256 this args in
    let swept : TrustStore = (alarm this' faults now_ms rearmed_ms).0 in
    let key : String × String = (args.cert_fp, args.nonce) in
    let at : Position = next_position sha256 this args in
    let answered : verify_lease_and_advance_chain sha256 this args
        ≡ ok (accepted, advanced at.0 at.1) =
      verify_lease_lem sha256 this args ∙ rw fresh in
    let same : accepted ≡ this' = state_of_ok (sym answered ∙ e) in
    let held : find nonce_key key (sweep_nonces accepted now_ms faults.nonces_throw).0.seen_nonces
        ≡ some (recorded args) =
      found_after_sweep accepted key (recorded args) now_ms faults.nonces_throw
        (record-HasDistinctNonces this.seen_nonces args h)
        (found_recorded this.seen_nonces args fresh) le in
    let known : find nonce_key key swept.seen_nonces ≡ some (recorded args) =
      rw (seen_nonces-alarm this' faults now_ms rearmed_ms) (
        subst
          (λ s.
            find nonce_key key (sweep_nonces s now_ms faults.nonces_throw).0.seen_nonces
            ≡ some (recorded args))
          same held) in
    verify_lease_lem sha256 swept (record args { peer_fp = peer_fp; ts = ts }) ∙ rw known
