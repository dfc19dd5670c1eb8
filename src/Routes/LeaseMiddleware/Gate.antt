-- ===== src/Routes/LeaseMiddleware/Gate.antt =====
-- src/routes/lease-middleware.ts: the gate in front of every leased route, with the environment's rules,
-- the cache of the authority's bundle and the TrustStore.
use cloister.Prelude.{
  ℕ, ◌≡◌, ◌≢◌, refl, sym, ap, subst, ◌∙◌, ◌⊎◌, inl, inr, String, Bool, true, false, some, List, ◌∷◌,
  arith, Bool-cases, if◌then◌else◌,
}
use cloister.Prelude.Keys.{◌==◌, ==_iff, option_eq, string_eq}
use cloister.Prelude.Results.{Result, ok, err, ok≢err}
use cloister.Storage.CaBundleCache.{CaBundle, Cache, Fetched, CaUnavailable, resolve_ca_bundle}
use cloister.Storage.CaBundleCache.Trust.{Call, Pins, IsBacked, IsGood, resolve_lem}
use cloister.TrustStore.{TrustStore}
use cloister.TrustStore.Lease.{is_replay, accepted_state}
use cloister.Routes.LeaseGate.{Env, is_truthy, resolve_lease_gate, lease_enforced}
use cloister.Routes.LeaseMiddleware.Types.{
  Runtime, LeaseRequest, VerifiedLease, Failure, denied, bad_key_base64, claims_type_error,
  chain_integrity, rpc_threw, LeaseErrorCode, err_unauthenticated,
}
use cloister.Routes.LeaseMiddleware.{
  GateVerdict, off, pass, reject, verdict_of, lease_args, verify_with, verify_and_upsert_lease,
  gate_and_verify,
}
use cloister.Routes.LeaseMiddleware.Checks.{IsAuthorized}
use cloister.Routes.LeaseMiddleware.Store.{accepted_lem, verify_cases, IsUnanswered}

verdict-pass :
    (r : Result Failure VerifiedLease) (lease : VerifiedLease)
    → verdict_of r ≡ ok (pass lease)
    → r ≡ ok lease
verdict-pass (ok lease') lease h = cc
verdict-pass (err (denied e)) lease h = cc
verdict-pass (err bad_key_base64) lease h = cc
verdict-pass (err claims_type_error) lease h = cc
verdict-pass (err (chain_integrity e)) lease h = cc
verdict-pass (err (rpc_threw message)) lease h = cc

no_verdict :
    {A : Type 0} {p q : (Cache × TrustStore) × Result Failure GateVerdict}
    → p ≡ q
    → (p.1 ≡ q.1 → ⊥)
    → A
no_verdict h never = absurd (never (ap (λ p. p.1) h))

pass≢off : {lease : VerifiedLease} → ◌≢◌ {A = Result Failure GateVerdict} (ok (pass lease)) (ok off)
pass≢off e = cc

reject≢off :
    {code : LeaseErrorCode} {message : String}
    → ◌≢◌ {A = Result Failure GateVerdict} (ok (reject code message)) (ok off)
reject≢off e = cc

-- An environment in which the gate is off, and a route that lets the request through then.
ungated :
    (env : Env) (deny_when_off : Bool)
    → lease_enforced env ≡ false
    → ◌≡◌ {A = Result Failure GateVerdict}
        (if deny_when_off
          then ok (reject err_unauthenticated "authentication required")
          else ok off)
        (ok off)
    → (env.cloister_mode ≡ some "dev")
      × (is_truthy env.dev_ca_master ≡ false)
      × (is_truthy env.interlace_root_pubkey ≡ false)
      × (deny_when_off ≡ false)
unfolding lease_enforced resolve_lease_gate
ungated env true unheld o = absurd (reject≢off o)
ungated env false unheld o =
    let is_dev : (env.cloister_mode == some "dev") ≡ true → env.cloister_mode ≡ some "dev" =
      (==_iff env.cloister_mode (some "dev")).0 in
    ground (arith, is_dev)

enforced : (env : Env) (root : String) → Pins env root → lease_enforced env ≡ true
unfolding lease_enforced resolve_lease_gate
enforced env root pins = ground (arith, pins.no_master, pins.pinned, pins.nonempty)

module _ (rt : Runtime) where
  -- What a pass asks of the bundle and the request, and what it does to the store.
  abbrev pub IsPassed :
      TrustStore → TrustStore → LeaseRequest → CaBundle → ℕ → VerifiedLease → Type 0
  IsPassed store store' verify bundle now_ms lease =
      IsAuthorized rt verify bundle now_ms lease
      × (is_replay store (lease_args rt lease) ≡ false)
      × (store' ≡ accepted_state rt.sha256_text store (lease_args rt lease))

  verify_with-pass :
      (store : TrustStore) (now_ms : ℕ) (verify : LeaseRequest)
      (resolved : Cache × Result CaUnavailable CaBundle) (after : Cache × TrustStore)
      (lease : VerifiedLease)
      → verify_with rt store now_ms verify resolved ≡ (after, ok (pass lease))
      → (bundle : CaBundle) × (resolved.1 ≡ ok bundle)
        × IsPassed store after.1 verify bundle now_ms lease
  verify_with-pass store now_ms verify (cache, err why) after lease h = no_verdict h λ e. cc
  verify_with-pass store now_ms verify (cache, ok bundle) after lease h =
      let ran = verify_and_upsert_lease rt store verify bundle now_ms in
      let e : ran.1 ≡ ok lease = verdict-pass ran.1 lease (ap (λ p. p.1) h) in
      (
        bundle,
        refl,
        subst (λ s. IsPassed store s verify bundle now_ms lease) (ap (λ p. p.0.1) h)
            (accepted_lem rt store ran.0 verify bundle now_ms lease (ap (λ r. (ran.0, r)) e)),
      )

  gate-enforced :
      (env : Env) (cache : Cache) (store : TrustStore) (fetch : Fetched) (now_ms : ℕ)
      (verify : LeaseRequest) (deny_when_off : Bool)
      → lease_enforced env ≡ true
      → gate_and_verify rt env (cache, store) fetch now_ms verify deny_when_off
        ≡ verify_with rt store now_ms verify
            (resolve_ca_bundle rt.verify_bundle_signature env cache fetch now_ms)
  unfolding gate_and_verify
  gate-enforced env cache store fetch now_ms verify deny_when_off h = rw h refl

  -- In an environment that pins a root key and has no development authority, with a cache that earlier
  -- calls filled: a request passes only with a lease that the bundle's keys back, under a bundle that
  -- the root key signed and that was fetched less than the refresh interval before, and the TrustStore
  -- has then recorded just that lease.
  pub gate_pass_lem :
      (env : Env) (root : String) (calls : List Call) (cache : Cache) (store : TrustStore)
      (fetch : Fetched) (now_ms : ℕ) (verify : LeaseRequest) (deny_when_off : Bool)
      (after : Cache × TrustStore) (lease : VerifiedLease)
      → Pins env root
      → IsBacked rt.verify_bundle_signature root calls cache
      → gate_and_verify rt env (cache, store) fetch now_ms verify deny_when_off
        ≡ (after, ok (pass lease))
      → (bundle : CaBundle) × IsGood rt.verify_bundle_signature root
          ((fetch, now_ms) ∷ calls)
          now_ms
          (ok bundle)
        × IsPassed store after.1 verify bundle now_ms lease
  gate_pass_lem env root calls cache store fetch now_ms verify deny_when_off after lease pins backed
        h =
      let resolved = resolve_ca_bundle rt.verify_bundle_signature env cache fetch now_ms in
      let (bundle, answered, passed) = verify_with-pass store now_ms verify resolved after lease (
        sym
          (gate-enforced env cache store fetch now_ms verify deny_when_off (enforced env root pins))
        ∙ h) in
      (
        bundle,
        subst (IsGood rt.verify_bundle_signature root ((fetch, now_ms) ∷ calls) now_ms) answered
            (resolve_lem rt.verify_bundle_signature root env calls cache fetch now_ms pins
              backed).1,
        passed,
      )

  -- The request is stopped by the exception of the call of the TrustStore whose answer was lost: the
  -- bundle that resolved authorized it, its nonce was not seen, and the store has recorded its lease.
  abbrev pub IsRecordedUnanswered :
      TrustStore
      → LeaseRequest
      → ℕ
      → Result CaUnavailable CaBundle
      → (Cache × TrustStore) × Result Failure GateVerdict
      → Type 0
  IsRecordedUnanswered store verify now_ms resolved after =
      (bundle : CaBundle) × (failure : Failure) × (resolved ≡ ok bundle)
      × (after.1 ≡ err failure)
      × IsUnanswered rt store after.0.1 verify bundle now_ms failure

  -- A verdict that stops the request: the store is as it was or holds the lease of a lost answer, and
  -- the gate is not `off`.
  abbrev Stops :
      TrustStore
      → LeaseRequest
      → ℕ
      → Result CaUnavailable CaBundle
      → (Cache × TrustStore) × Result Failure GateVerdict
      → Type 0
  Stops store verify now_ms resolved after =
      ((after.0.1 ≡ store) ⊎ IsRecordedUnanswered store verify now_ms resolved after)
      × (after.1 ≢ ok off)

  abbrev Passes : (Cache × TrustStore) × Result Failure GateVerdict → Type 0
  Passes after = (lease : VerifiedLease) × (after.1 ≡ ok (pass lease))

  verdict-off : (failure : Failure) → verdict_of (err failure) ≢ ok off
  verdict-off (denied e) h = cc
  verdict-off bad_key_base64 h = cc
  verdict-off claims_type_error h = cc
  verdict-off (chain_integrity e) h = cc
  verdict-off (rpc_threw message) h = cc

  verify_with-cases :
      (store : TrustStore) (now_ms : ℕ) (verify : LeaseRequest)
      (resolved : Cache × Result CaUnavailable CaBundle)
      → Passes (verify_with rt store now_ms verify resolved)
        ⊎ Stops store verify now_ms resolved.1 (verify_with rt store now_ms verify resolved)
  verify_with-cases store now_ms verify (cache, err why) = inr (inl refl, λ e. cc)
  verify_with-cases store now_ms verify (cache, ok bundle) =
      elim (verify_cases rt store verify bundle now_ms) [
        | inl (lease, authorized, fresh, e) ↦ inl (lease, rw e refl)
        | inr (inl (failure, e)) ↦
            inr (
              inl (ap (λ p. p.0) e),
              λ o. verdict-off failure (ap (λ p. verdict_of p.1) (sym e) ∙ o),
            )
        | inr (inr (store', failure, e, unanswered)) ↦
            let threw : failure ≡ rpc_threw unanswered.0 = unanswered.2 in
            let stopped : (verify_with rt store now_ms verify (cache, ok bundle)).1 ≡ err failure =
              ap (λ p. verdict_of p.1) e ∙ rw threw refl in
            inr (
              inr (
                bundle,
                failure,
                refl,
                stopped,
                subst (λ s. IsUnanswered rt store s verify bundle now_ms failure)
                    (sym (ap (λ p. p.0) e)) unanswered,
              ),
              λ o. ok≢err (sym o ∙ stopped),
            )
      ]

  -- In every environment, a request that does not pass leaves the TrustStore as it was, whether it is
  -- rejected, let through with the gate off, or stopped by an exception, but for one case: it is stopped
  -- by the exception of the call of the TrustStore whose answer was lost, the bundle authorized it, its
  -- nonce was not seen, and the store has recorded just its lease. And the gate is off only where the
  -- mode is "dev", neither authority is configured, and the route does not deny then.
  pub gate_fails_closed :
      (env : Env) (cache : Cache) (store : TrustStore) (fetch : Fetched) (now_ms : ℕ)
      (verify : LeaseRequest) (deny_when_off : Bool)
      → let after = gate_and_verify rt env (cache, store) fetch now_ms verify deny_when_off in
        let resolved = resolve_ca_bundle rt.verify_bundle_signature env cache fetch now_ms in
        (((lease : VerifiedLease) × (after.1 ≡ ok (pass lease)))
          ⊎ ((after.0.1 ≡ store) ⊎ IsRecordedUnanswered store verify now_ms resolved.1 after))
        × (after.1 ≡ ok off
            → (env.cloister_mode ≡ some "dev")
              × (is_truthy env.dev_ca_master ≡ false)
              × (is_truthy env.interlace_root_pubkey ≡ false)
              × (deny_when_off ≡ false))
  unfolding gate_and_verify
  gate_fails_closed env cache store fetch now_ms verify deny_when_off =
      elim (Bool-cases (lease_enforced env)) [
        | inl on ↦
            rw on
              (elim (verify_with-cases store now_ms verify
                (resolve_ca_bundle rt.verify_bundle_signature env cache fetch now_ms)) [
                  | inl (lease, e) ↦ (inl (lease, e), λ o. absurd (pass≢off (sym e ∙ o)))
                  | inr (kept, not_off) ↦ (inr kept, λ o. absurd (not_off o))
                ])
        | inr unheld ↦ rw unheld (inr (inl refl), λ o. ungated env deny_when_off unheld o)
      ]
