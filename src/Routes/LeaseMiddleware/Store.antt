-- ===== src/Routes/LeaseMiddleware/Store.antt =====
-- src/routes/lease-middleware.ts: what a verification does to the TrustStore.
use cloister.Prelude.{
  ℕ, String, ◌≡◌, refl, sym, ap, subst, ◌∙◌, ◌⊎◌, false, if◌then◌else◌, Bool-cases, inl, inr,
}
use cloister.Prelude.Results.{Result, ok, err, ok-injective, ok≢err, Result-cases}
use cloister.Storage.CaBundleCache.{CaBundle}
use cloister.TrustStore.{TrustStore}
use cloister.TrustStore.Lease.{is_replay, accepted_state, verify_lease_lem}
use cloister.Routes.Hop.{Hop, reached, lost, reply_lost}
use cloister.Routes.LeaseMiddleware.Types.{
  Runtime, LeaseRequest, VerifiedLease, Failure, deny, rpc_threw, err_replay,
}
use cloister.Routes.LeaseMiddleware.{authorize, lease_args, record_lease, verify_and_upsert_lease}
use cloister.Routes.LeaseMiddleware.Checks.{IsAuthorized, authorize-ok}

abbrev replay_failure : Failure
replay_failure = deny err_replay "request envelope replayed (cert_fp, nonce) tuple already seen"

abbrev failure_or : Failure → Result Failure VerifiedLease → Failure
failure_or default (ok lease) = default
failure_or default (err failure) = failure

module _ (rt : Runtime) where
  pub record_lease_lem :
      (store : TrustStore) (lease : VerifiedLease)
      → record_lease rt store reached lease ≡ (
          if is_replay store (lease_args rt lease)
          then (store, err replay_failure)
          else (accepted_state rt.sha256_text store (lease_args rt lease), ok lease))
  unfolding record_lease
  record_lease_lem store lease = elim (Bool-cases (is_replay store (lease_args rt lease))) [
    | inl e ↦ rw (verify_lease_lem rt.sha256_text store (lease_args rt lease), e) refl
    | inr e ↦ rw (verify_lease_lem rt.sha256_text store (lease_args rt lease), e) refl
  ]

  pub record_lease-reply_lost :
      (store : TrustStore) (message : String) (lease : VerifiedLease)
      → record_lease rt store (reply_lost message) lease
        ≡ ((record_lease rt store reached lease).0, err (rpc_threw message))
  unfolding record_lease
  record_lease-reply_lost store message lease = refl

  -- An authorized request that is no replay, whose call of the TrustStore took effect and whose answer
  -- was lost: the exception that is thrown, and the store that records the lease.
  abbrev pub IsUnanswered : TrustStore → TrustStore → LeaseRequest → CaBundle → ℕ → Failure → Type 0
  IsUnanswered store store' args bundle now_ms failure =
      (message : String) × (args.lease_call ≡ reply_lost message)
      × (failure ≡ rpc_threw message)
      × (lease : VerifiedLease) × IsAuthorized rt args bundle now_ms lease
      × (is_replay store (lease_args rt lease) ≡ false)
      × (store' ≡ accepted_state rt.sha256_text store (lease_args rt lease))

  -- The ways in which the call ends for an authorized request.
  record_cases :
      (store : TrustStore) (hop : Hop) (lease : VerifiedLease)
      → let after = record_lease rt store hop lease in
        ((is_replay store (lease_args rt lease) ≡ false)
          × (after ≡ (accepted_state rt.sha256_text store (lease_args rt lease), ok lease)))
        ⊎ (((failure : Failure) × (after ≡ (store, err failure)))
            ⊎ ((message : String) × (hop ≡ reply_lost message)
                × (is_replay store (lease_args rt lease) ≡ false)
                × (after ≡ (
                  accepted_state rt.sha256_text store (lease_args rt lease),
                  err (rpc_threw message),
                ))))
  record_cases store reached lease = elim (Bool-cases (is_replay store (lease_args rt lease))) [
    | inl replay ↦ inr (inl (replay_failure, record_lease_lem store lease ∙ rw replay refl))
    | inr fresh ↦ inl (fresh, record_lease_lem store lease ∙ rw fresh refl)
  ]
  record_cases store (lost message) lease =
      inr (inl (rpc_threw message, unfold record_lease in refl))
  record_cases store (reply_lost message) lease =
      let ran = record_lease-reply_lost store message lease in
      elim (Bool-cases (is_replay store (lease_args rt lease))) [
        | inl replay ↦
            inr (inl (rpc_threw message, ran ∙ rw (record_lease_lem store lease, replay) refl))
        | inr fresh ↦
            inr (inr (message, refl, fresh, ran ∙ rw (record_lease_lem store lease, fresh) refl))
      ]

  -- The three ways in which a verification ends: with the lease of an authorized request that is no
  -- replay, which is recorded; with the store as it was; or with the exception of a call that took
  -- effect and whose answer was lost.
  pub verify_cases :
      (store : TrustStore) (args : LeaseRequest) (bundle : CaBundle) (now_ms : ℕ)
      → let after = verify_and_upsert_lease rt store args bundle now_ms in
        ((lease : VerifiedLease) × (authorize rt args bundle now_ms ≡ ok lease)
          × (is_replay store (lease_args rt lease) ≡ false)
          × (after ≡ (accepted_state rt.sha256_text store (lease_args rt lease), ok lease)))
        ⊎ (((failure : Failure) × (after ≡ (store, err failure)))
            ⊎ ((store' : TrustStore) × (failure : Failure) × (after ≡ (store', err failure))
                × IsUnanswered store store' args bundle now_ms failure))
  unfolding verify_and_upsert_lease
  verify_cases store args bundle now_ms = elim (Result-cases (authorize rt args bundle now_ms)) [
    | inr (failure, e) ↦ inr (inl (failure, rw e refl))
    | inl (lease, e) ↦ elim (record_cases store args.lease_call lease) [
      | inl (fresh, r) ↦ inl (lease, e, fresh, rw e r)
      | inr (inl (failure, r)) ↦ inr (inl (failure, rw e r))
      | inr (inr (message, hop, fresh, r)) ↦ inr (
          inr (
            accepted_state rt.sha256_text store (lease_args rt lease),
            rpc_threw message,
            rw e r,
            (message, hop, refl, lease, authorize-ok rt args bundle now_ms lease e, fresh, refl),
          ))
    ]
  ]

  -- A lease is returned only for what the documentation asks: the headers are read, the time is
  -- within the tolerance, a key of the bundle signed a current and valid certificate with the three
  -- claims, its key signed the request, its scope allows it, and the TrustStore had not seen the
  -- certificate's nonce. The store then holds the nonce and the peer's counter is one further.
  pub accepted_lem :
      (store store' : TrustStore) (args : LeaseRequest) (bundle : CaBundle) (now_ms : ℕ)
      (lease : VerifiedLease)
      → verify_and_upsert_lease rt store args bundle now_ms ≡ (store', ok lease)
      → IsAuthorized rt args bundle now_ms lease
        × (is_replay store (lease_args rt lease) ≡ false)
        × (store' ≡ accepted_state rt.sha256_text store (lease_args rt lease))
  accepted_lem store store' args bundle now_ms lease h =
      elim (verify_cases store args bundle now_ms) [
        | inr (inl (failure, e)) ↦ absurd (ok≢err (sym (ap (λ p. p.1) h) ∙ ap (λ p. p.1) e))
        | inr (inr (after, failure, e, _)) ↦
            absurd (ok≢err (sym (ap (λ p. p.1) h) ∙ ap (λ p. p.1) e))
        | inl (lease', authorized, fresh, e) ↦
            let same : lease' ≡ lease = ok-injective (sym (ap (λ p. p.1) e) ∙ ap (λ p. p.1) h) in
            (
              authorize-ok rt args bundle now_ms lease (authorized ∙ ap ok same),
              subst (λ l. is_replay store (lease_args rt l) ≡ false) same fresh,
              sym (ap (λ p. p.0) h)
                  ∙ ap (λ p. p.0) e
                  ∙ ap (λ l. accepted_state rt.sha256_text store (lease_args rt l)) same,
            )
      ]

  -- A verification that does not return a lease, whether it returns an error or throws, leaves the
  -- TrustStore as it was: no rejected request consumes a nonce or advances a counter. The one other
  -- case is the exception of the call of the TrustStore whose answer was lost, for a request that
  -- every check authorizes and whose nonce was not seen: the store has then recorded just its lease.
  pub rejected_lem :
      (store store' : TrustStore) (args : LeaseRequest) (bundle : CaBundle) (now_ms : ℕ)
      (failure : Failure)
      → verify_and_upsert_lease rt store args bundle now_ms ≡ (store', err failure)
      → (store' ≡ store) ⊎ IsUnanswered store store' args bundle now_ms failure
  rejected_lem store store' args bundle now_ms failure h =
      elim (verify_cases store args bundle now_ms) [
        | inr (inl (why, e)) ↦ inl (sym (ap (λ p. p.0) h) ∙ ap (λ p. p.0) e)
        | inr (inr (after, why, e, unanswered)) ↦
            let same_failure : why ≡ failure = ap (λ p. failure_or why p.1) (sym e ∙ h) in
            inr (
              subst (λ s. IsUnanswered store s args bundle now_ms failure)
                (ap (λ p. p.0) (sym e ∙ h))
                (subst (IsUnanswered store after args bundle now_ms) same_failure unanswered))
        | inl (lease, authorized, fresh, e) ↦
            absurd (ok≢err (sym (ap (λ p. p.1) e) ∙ ap (λ p. p.1) h))
      ]
