-- ===== src/Routes/LeaseMiddleware/Once.antt =====
-- src/routes/lease-middleware.ts with the alarm of src/trust-store.ts: one envelope over time.
use cloister.Prelude.{
  ℕ, ◌+◌, ◌-◌, ◌≤◌, ◌<◌, ◌≡◌, ◌≢◌, refl, sym, ap, subst, ◌∙◌, ◌⊎◌, inl, inr, String, Bool, true,
  false, some, is_some, List, [], ◌∷◌, arith, ltb, Bool-cases,
}
use mathlib.Core.Bool.{true≢false}
use cloister.Prelude.Chars.{b64encode}
use cloister.Prelude.Keys.{pair_eq, string_eq}
use cloister.Prelude.Results.{ok, ok-injective, ok≢err}
use cloister.Table.{find, HasDistinctKeys}
use cloister.Table.Laws.{find-insert_or_ignore, find-delete_where_distinct}
use cloister.Storage.SeenNonces.{
  SeenNonce, Ledger, nonce_key, record_seen_nonce, prune_seen_nonces_before,
}
use cloister.Storage.SeenNonces.Replay.{record-HasDistinctKeys, prune-HasDistinctKeys}
use cloister.Storage.CaBundleCache.{CaBundle}
use cloister.TrustStore.{
  TrustStore, SweepFaults, LeaseArgs, alarm, sweep_nonces, seen_nonces_retention_ms,
}
use cloister.TrustStore.Lease.{accepted_state}
use cloister.TrustStore.Sweep.{seen_nonces-alarm, found_recorded, recorded}
use cloister.Routes.LeaseMiddleware.Headers.{ParsedAuthHeaders, parse_auth_headers}
use cloister.Routes.LeaseMiddleware.Types.{Runtime, LeaseRequest, VerifiedLease, max_clock_skew_ms}
use cloister.Routes.LeaseMiddleware.{
  distance, lease_args, cert_fingerprint, verify_and_upsert_lease,
}
use cloister.Routes.LeaseMiddleware.Checks.{IsAuthorized, authorize-ok}
use cloister.Routes.LeaseMiddleware.Store.{verify_cases, accepted_lem}

-- What happens to a TrustStore: a request that reaches the verification, under any bundle, or an alarm,
-- with its two readings of the clock.
pub data Event : Type 0 where
  request : (args : LeaseRequest) (bundle : CaBundle) (now_ms : ℕ) → Event
  sweep : (faults : SweepFaults) (now_ms rearmed_ms : ℕ) → Event

abbrev pub time_of : Event → ℕ
time_of (request args bundle now_ms) = now_ms
time_of (sweep faults now_ms rearmed_ms) = now_ms

-- The clock does not go back from `from` over the events to `until`.
abbrev pub InOrder : ℕ → List Event → ℕ → Type 0
InOrder from [] until = from ≤ until
InOrder from (event ∷ events) until = (from ≤ time_of event) × InOrder (time_of event) events until

module _ (rt : Runtime) where
  unfoldable pub handle : TrustStore → Event → TrustStore
  handle store (request args bundle now_ms) =
      (verify_and_upsert_lease rt store args bundle now_ms).0
  handle store (sweep faults now_ms rearmed_ms) = (alarm store faults now_ms rearmed_ms).0

  unfoldable pub handle_all : TrustStore → List Event → TrustStore
  handle_all store [] = store
  handle_all store (event ∷ events) = handle_all (handle store event) events

-- A key that cannot be used again from `now_ms` on by an envelope of time `ts`: the ledger has it, with
-- a row no older than the envelope allows, or the envelope is out of the tolerance.
abbrev Spent : Ledger → String × String → ℕ → ℕ → Type 0
Spent sql key ts now_ms =
    HasDistinctKeys nonce_key sql
    × (((row : SeenNonce) × (find nonce_key key sql ≡ some row)
          × (ts ≤ row.ts_ms + max_clock_skew_ms))
        ⊎ (ts + max_clock_skew_ms < now_ms))

Spent-later :
    (sql : Ledger) (key : String × String) (ts now_ms later : ℕ)
    → now_ms ≤ later
    → Spent sql key ts now_ms
    → Spent sql key ts later
Spent-later sql key ts now_ms later le (distinct, inl held) = (distinct, inl held)
Spent-later sql key ts now_ms later le (distinct, inr stale) = (distinct, inr (omega arith))

found_again :
    (sql : Ledger) (key : String × String) (row : SeenNonce) (cert nonce : String) (ts : ℕ)
    → find nonce_key key sql ≡ some row
    → find nonce_key key (record_seen_nonce sql cert nonce ts).0 ≡ some row
unfolding record_seen_nonce
found_again sql key row cert nonce ts e =
    find-insert_or_ignore nonce_key (record { cert_fp = cert; nonce = nonce; ts_ms = ts }) key sql
    ∙ rw e (ground arith)

Spent-record :
    (sql : Ledger) (key : String × String) (ts now_ms : ℕ) (cert nonce : String) (at : ℕ)
    → Spent sql key ts now_ms
    → Spent (record_seen_nonce sql cert nonce at).0 key ts now_ms
Spent-record sql key ts now_ms cert nonce at (distinct, inl (row, e, le)) = (
  record-HasDistinctKeys sql cert nonce at distinct,
  inl (row, found_again sql key row cert nonce at e, le),
)
Spent-record sql key ts now_ms cert nonce at (distinct, inr stale) =
    (record-HasDistinctKeys sql cert nonce at distinct, inr stale)

-- A row that is pruned is older than the retention, and its envelope older than the tolerance.
Spent-prune :
    (sql : Ledger) (key : String × String) (ts now_ms : ℕ)
    → Spent sql key ts now_ms
    → Spent (prune_seen_nonces_before sql (now_ms - seen_nonces_retention_ms)).0 key ts now_ms
Spent-prune sql key ts now_ms (distinct, inr stale) =
    (prune-HasDistinctKeys sql (now_ms - seen_nonces_retention_ms) distinct, inr stale)
Spent-prune sql key ts now_ms (distinct, inl (row, e, le)) =
    let before : ℕ = now_ms - seen_nonces_retention_ms in
    (
      prune-HasDistinctKeys sql before distinct,
      elim (Bool-cases (ltb row.ts_ms before)) [
        | inl old ↦ inr (ground arith)
        | inr young ↦ inl (
          row,
          unfold prune_seen_nonces_before in
              find-delete_where_distinct nonce_key (λ r. ltb r.ts_ms before) key sql distinct
              ∙ rw (e, young) refl,
          le,
        )
      ],
    )

Spent-sweep :
    (store : TrustStore) (key : String × String) (ts now_ms : ℕ) (throws : Bool)
    → Spent store.seen_nonces key ts now_ms
    → Spent (sweep_nonces store now_ms throws).0.seen_nonces key ts now_ms
Spent-sweep store key ts now_ms true spent = spent
Spent-sweep store key ts now_ms false spent = Spent-prune store.seen_nonces key ts now_ms spent

module _ (rt : Runtime) (key : String × String) (ts : ℕ) where
  Spent-handle :
      (store : TrustStore) (event : Event)
      → Spent store.seen_nonces key ts (time_of event)
      → Spent (handle rt store event).seen_nonces key ts (time_of event)
  unfolding handle
  Spent-handle store (sweep faults now_ms rearmed_ms) spent =
      rw (seen_nonces-alarm store faults now_ms rearmed_ms)
        (Spent-sweep store key ts now_ms faults.nonces_throw spent)
  Spent-handle store (request args bundle now_ms) spent =
      elim (verify_cases rt store args bundle now_ms) [
        | inr (inl (failure, e)) ↦ rw (e, handle) spent
        | inr (inr (after, failure, e, (message, hop, threw, lease, authorized, fresh, recorded))) ↦
            rw (e, handle, recorded)
              (Spent-record store.seen_nonces key ts now_ms (lease_args rt lease).cert_fp
                (lease_args rt lease).nonce (lease_args rt lease).ts spent)
        | inl (lease, authorized, fresh, e) ↦
            rw (e, handle)
              (Spent-record store.seen_nonces key ts now_ms (lease_args rt lease).cert_fp
                (lease_args rt lease).nonce (lease_args rt lease).ts spent)
      ]

  Spent-handle_all :
      (store : TrustStore) (from : ℕ) (events : List Event) (until : ℕ)
      → InOrder from events until
      → Spent store.seen_nonces key ts from
      → Spent (handle_all rt store events).seen_nonces key ts until
  unfolding handle_all
  Spent-handle_all store from [] until order spent =
      Spent-later store.seen_nonces key ts from until order spent
  Spent-handle_all store from (event ∷ events) until order spent =
      Spent-handle_all (handle rt store event) (time_of event) events until order.1 (
        Spent-handle store event
          (Spent-later store.seen_nonces key ts from (time_of event) order.0 spent))

Spent-recorded :
    (sql : Ledger) (args : LeaseArgs) (ts now_ms : ℕ)
    → HasDistinctKeys nonce_key sql
    → is_some (find nonce_key (args.cert_fp, args.nonce) sql) ≡ false
    → ts ≤ args.ts + max_clock_skew_ms
    → Spent
        (record_seen_nonce sql args.cert_fp args.nonce args.ts).0
        (args.cert_fp, args.nonce)
        ts
        now_ms
Spent-recorded sql args ts now_ms distinct fresh le = (
  record-HasDistinctKeys sql args.cert_fp args.nonce args.ts distinct,
  inl (recorded args, found_recorded sql args fresh, le),
)

module _ (rt : Runtime) where
  -- The key under which the ledger holds an envelope.
  abbrev envelope_key : ParsedAuthHeaders → String × String
  envelope_key headers = (cert_fingerprint rt headers.cert_der, b64encode rt.btoa headers.nonce)

  key_of_lease :
      (args : LeaseRequest) (bundle : CaBundle) (now_ms : ℕ) (lease : VerifiedLease)
      (a : IsAuthorized rt args bundle now_ms lease)
      → ((lease_args rt lease).cert_fp, (lease_args rt lease).nonce) ≡ envelope_key a.headers
  key_of_lease args bundle now_ms lease a =
      ap (λ l. (l.cert_fp, b64encode rt.btoa l.nonce)) a.reported

  Spent-accepted :
      (store store' : TrustStore) (headers : ParsedAuthHeaders) (args : LeaseRequest)
      (bundle : CaBundle) (now_ms : ℕ) (lease : VerifiedLease)
      → HasDistinctKeys nonce_key store.seen_nonces
      → verify_and_upsert_lease rt store args bundle now_ms ≡ (store', ok lease)
      → parse_auth_headers rt.atob args.headers ≡ ok headers
      → Spent store'.seen_nonces (envelope_key headers) headers.ts now_ms
  Spent-accepted store store' headers args bundle now_ms lease distinct ran read =
      let (authorized, fresh, became) = accepted_lem rt store store' args bundle now_ms lease ran in
      let same : authorized.headers ≡ headers = ok-injective (sym authorized.parsed ∙ read) in
      subst (λ h. Spent store'.seen_nonces (envelope_key h) h.ts now_ms) same
        (subst
          (λ s. Spent s.seen_nonces (envelope_key authorized.headers) authorized.headers.ts now_ms)
          (sym became)
          (subst
            (λ k.
              Spent (accepted_state rt.sha256_text store (lease_args rt lease)).seen_nonces k
                authorized.headers.ts now_ms)
            (key_of_lease args bundle now_ms lease authorized)
            (Spent-recorded store.seen_nonces (lease_args rt lease) authorized.headers.ts now_ms
              distinct fresh
              (subst (λ l. authorized.headers.ts ≤ l.server_ts + max_clock_skew_ms)
                (sym authorized.reported) (omega (arith, authorized.in_time))))))

  refused :
      (store : TrustStore) (headers : ParsedAuthHeaders) (now_ms : ℕ)
      → Spent store.seen_nonces (envelope_key headers) headers.ts now_ms
      → distance now_ms headers.ts ≤ max_clock_skew_ms
      → is_some (find nonce_key (envelope_key headers) store.seen_nonces) ≡ true
  refused store headers now_ms (distinct, inr stale) le = absurd (omega arith)
  refused store headers now_ms (distinct, inl (row, e, _)) le = rw e refl

  -- From a store whose ledger has distinct keys: once a request is accepted, no later request with the
  -- same four headers is, whatever its URL, body, method or bundle, after any sequence of requests and
  -- of hourly sweeps whose statements may throw, as long as the clock does not go back. The sweeps
  -- forget a nonce only when the clock tolerance has already made its envelope unusable.
  pub accepted_once :
      (store store' : TrustStore) (args later : LeaseRequest) (bundle bundle' : CaBundle)
      (now_ms later_ms : ℕ) (lease lease' : VerifiedLease) (events : List Event)
      → HasDistinctKeys nonce_key store.seen_nonces
      → verify_and_upsert_lease rt store args bundle now_ms ≡ (store', ok lease)
      → InOrder now_ms events later_ms
      → later.headers ≡ args.headers
      → (verify_and_upsert_lease rt (handle_all rt store' events) later bundle' later_ms).1
        ≢ ok lease'
  accepted_once store store' args later bundle bundle' now_ms later_ms lease lease' events distinct
        ran order same again =
      let after : TrustStore = handle_all rt store' events in
      let before = (accepted_lem rt store store' args bundle now_ms lease ran).0 in
      let headers : ParsedAuthHeaders = before.headers in
      let spent : Spent after.seen_nonces (envelope_key headers) headers.ts later_ms =
        Spent-handle_all rt (envelope_key headers) headers.ts store' now_ms events later_ms order (
          Spent-accepted store store' headers args bundle now_ms lease distinct ran
            before.parsed) in
      elim (verify_cases rt after later bundle' later_ms) [
        | inr (inl (failure, e)) ↦ ok≢err (sym again ∙ ap (λ p. p.1) e)
        | inr (inr (lost, failure, e, _)) ↦ ok≢err (sym again ∙ ap (λ p. p.1) e)
        | inl (lease'', authorized, fresh, e) ↦
            let a = authorize-ok rt later bundle' later_ms lease'' authorized in
            let read : a.headers ≡ headers =
              ok-injective (sym a.parsed ∙ ap (parse_auth_headers rt.atob) same ∙ before.parsed) in
            let held : is_some (find nonce_key (envelope_key headers) after.seen_nonces) ≡ true =
              refused after headers later_ms spent
                (subst (λ h. distance later_ms h.ts ≤ max_clock_skew_ms) read a.in_time) in
            let key = key_of_lease later bundle' later_ms lease'' a ∙ ap envelope_key read in
            true≢false
              (sym held ∙ ap (λ k. is_some (find nonce_key k after.seen_nonces)) (sym key) ∙ fresh)
      ]
