-- ===== src/Routes/OciRegistry/Gated.antt =====
-- src/routes/oci-registry.ts: no write without the gate.
use cloister.Prelude.{ℕ, ◌≡◌, ◌⊎◌, refl, String, false, Option, none, some, inl, inr, Bool-cases}
use cloister.Prelude.Results.{Result, ok, err}
use cloister.Storage.CaBundleCache.{Cache, resolve_ca_bundle}
use cloister.TrustStore.{TrustStore}
use cloister.Routes.LeaseGate.{Env}
use cloister.Routes.LeaseMiddleware.Types.{Runtime, Failure, VerifiedLease}
use cloister.Routes.LeaseMiddleware.{GateVerdict, off, pass, reject, gate_and_verify}
use cloister.Routes.LeaseMiddleware.Gate.{gate_fails_closed, IsRecordedUnanswered}
use cloister.Routes.OciRegistry.Names.{is_repo_name}
use cloister.Routes.OciRegistry.Types.{Platform, Registry, Call, Outcome}
use cloister.Routes.OciRegistry.Push.{unless_answered, gated, gate_write, write_request}
use cloister.Routes.OciRegistry.Uploads.{append_chunk, finalize_upload}
use cloister.Routes.OciRegistry.ManifestPut.{put_manifest}
use cloister.Routes.OciRegistry.{
  Endpoint, begin_upload, patch_upload, end_upload, push_manifest, version, catalog, tags,
  pull_manifest, pull_blob, endpoint_of, authorized, begun, serve, answer, handle,
}

abbrev pub IsAdmitted : Result Failure GateVerdict → Type 0
IsAdmitted verdict = (verdict ≡ ok off) ⊎ ((lease : VerifiedLease) × (verdict ≡ ok (pass lease)))

-- The sessions, the blobs and every table of the TrustStore.
abbrev pub Unchanged : Registry → Registry → Type 0
Unchanged this after =
    (after.uploads ≡ this.uploads) × (after.blobs ≡ this.blobs) × (after.trust ≡ this.trust)

-- The repository that a request writes to.
abbrev pub written : Option Endpoint → Option String
written (some (begin_upload name)) = some name
written (some (patch_upload name uuid)) = some name
written (some (end_upload name uuid)) = some name
written (some (push_manifest name reference)) = some name
written (some version) = none
written (some catalog) = none
written (some (tags name)) = none
written (some (pull_manifest name reference)) = none
written (some (pull_blob name digest)) = none
written none = none

module _ (rt : Runtime) (platform : Platform) (env : Env) (max_blob_bytes : ℕ) where
  abbrev pub verdict : Registry → Call → String → (Cache × TrustStore) × Result Failure GateVerdict
  verdict this call name =
      gate_and_verify rt env (this.cache, this.trust) call.fetch call.now_ms
        (write_request platform rt env call name) false

  -- The gate was stopped by the exception of its call of the TrustStore whose answer was lost: a bundle
  -- authorized the request, and the TrustStore holds its lease. The sessions and the blobs are as they
  -- were.
  abbrev pub IsLostAnswer : Registry → Call → String → Registry → Type 0
  IsLostAnswer this call name after =
      (after.uploads ≡ this.uploads)
      × (after.blobs ≡ this.blobs)
      × IsRecordedUnanswered rt this.trust (write_request platform rt env call name) call.now_ms
          (resolve_ca_bundle rt.verify_bundle_signature env this.cache call.fetch call.now_ms).1
          ((after.cache, after.trust), (verdict this call name).1)

  stopped :
      (this : Registry) (judged : (Cache × TrustStore) × Result Failure GateVerdict)
      (next : Registry → Outcome)
      (Lost : (Cache × TrustStore) × Result Failure GateVerdict → Type 0)
      → ((lease : VerifiedLease) × (judged.1 ≡ ok (pass lease)))
        ⊎ ((judged.0.1 ≡ this.trust) ⊎ Lost judged)
      → let after = (unless_answered (gated platform rt env this judged) next).0 in
        IsAdmitted judged.1
        ⊎ (Unchanged this after
            ⊎ ((after.uploads ≡ this.uploads)
                × (after.blobs ≡ this.blobs)
                × Lost ((after.cache, after.trust), judged.1)))
  stopped this judged next Lost (inl passed) = inl (inr passed)
  stopped this ((cache, trust), ok off) next Lost (inr ended) = inl (inl refl)
  stopped this ((cache, trust), ok (pass lease)) next Lost (inr ended) = inl (inr (lease, refl))
  stopped this ((cache, trust), err failure) next Lost (inr (inl kept)) =
      inr (inl (refl, refl, kept))
  stopped this ((cache, trust), err failure) next Lost (inr (inr lost)) =
      inr (inr (refl, refl, lost))
  stopped this ((cache, trust), ok (reject code message)) next Lost (inr (inl kept)) =
      inr (inl (refl, refl, kept))
  stopped this ((cache, trust), ok (reject code message)) next Lost (inr (inr lost)) =
      inr (inr (refl, refl, lost))

  -- What becomes of the state when a request writes to a repository.
  abbrev pub IsGuardedWrite : Registry → Call → String → Registry → Type 0
  IsGuardedWrite this call name after =
      IsAdmitted (verdict this call name).1
      ⊎ (Unchanged this after ⊎ IsLostAnswer this call name after)

  authorized-IsGuardedWrite :
      (this : Registry) (call : Call) (name : String) (next : Registry → Outcome)
      → IsGuardedWrite this call name
          (authorized rt platform env max_blob_bytes this call name next).0
  unfolding gate_write
  authorized-IsGuardedWrite this call name next = elim (Bool-cases (is_repo_name name)) [
    | inl valid ↦ rw valid (
        stopped this (verdict this call name) next
          (IsRecordedUnanswered rt this.trust (write_request platform rt env call name) call.now_ms
            (resolve_ca_bundle rt.verify_bundle_signature env this.cache call.fetch call.now_ms).1)
          (gate_fails_closed rt env this.cache this.trust call.fetch call.now_ms
            (write_request platform rt env call name) false).0)
    | inr invalid ↦ rw invalid (inr (inl (refl, refl, refl)))
  ]

  -- What becomes of the state, by the repository that the request writes to.
  abbrev pub Guarded : Registry → Call → Outcome → Option String → Type 0
  Guarded this call after none = after.0 ≡ this
  Guarded this call after (some name) = IsGuardedWrite this call name after.0

  answer-Guarded :
      (this : Registry) (call : Call) (endpoint : Option Endpoint)
      → Guarded this call
          (answer rt platform env max_blob_bytes this call endpoint)
          (written endpoint)
  unfolding serve
  answer-Guarded this call (some (begin_upload name)) =
      authorized-IsGuardedWrite this call name
        (begun rt platform env max_blob_bytes call name (platform.patterns.digest_param call.url))
  answer-Guarded this call (some (patch_upload name uuid)) =
      authorized-IsGuardedWrite this call name
        (λ this. append_chunk platform max_blob_bytes this call name uuid)
  answer-Guarded this call (some (end_upload name uuid)) =
      authorized-IsGuardedWrite this call name
        (λ this. finalize_upload platform max_blob_bytes this call name uuid)
  answer-Guarded this call (some (push_manifest name reference)) =
      authorized-IsGuardedWrite this call name
        (λ this. put_manifest platform max_blob_bytes this call name reference)
  answer-Guarded this call (some version) = refl
  answer-Guarded this call (some catalog) = refl
  answer-Guarded this call (some (tags name)) = refl
  answer-Guarded this call (some (pull_manifest name reference)) = refl
  answer-Guarded this call (some (pull_blob name digest)) = refl
  answer-Guarded this call none = refl

  -- A request whose URL and method write to no repository changes nothing. One that writes to a repository
  -- has a verdict of the gate, under the scope of just that repository, that lets it through, or it
  -- leaves the sessions, the blobs and every table of the TrustStore as they were. The one other case is
  -- a gate stopped by the exception of its call of the TrustStore whose answer was lost: it leaves the
  -- sessions and the blobs as they were, and the TrustStore has recorded the lease that the resolved
  -- bundle authorized.
  pub handle-Guarded :
      (this : Registry) (call : Call)
      → Guarded this call
          (handle rt platform env max_blob_bytes this call)
          (written (endpoint_of platform.patterns call.method call.url))
  unfolding handle
  handle-Guarded this call =
      answer-Guarded this call (endpoint_of platform.patterns call.method call.url)
