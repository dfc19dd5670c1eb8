-- ===== src/Routes/OciRegistry/Steps.antt =====
-- src/routes/oci-registry.ts: what the parts of a handler leave as it was, and the rules by which a fact
-- about the state passes through a handler.
use cloister.Prelude.{◌≡◌, refl, ap, String, Option, none, some, List, ℕ}
use cloister.Prelude.Results.{Result, ok, err, ok-injective}
use cloister.Storage.RegistryMembership.{MembershipKind}
use cloister.Storage.Workerd.{Blobs, blob_chunk_size, put}
use cloister.Routes.LeaseGate.{Env}
use cloister.Routes.LeaseMiddleware.Types.{Runtime}
use cloister.Routes.OciRegistry.Responses.{Response}
use cloister.Routes.OciRegistry.Types.{Platform, Registry, Call, Thrown, Outcome}
use cloister.Routes.OciRegistry.Pull.{or_return}
use cloister.Routes.OciRegistry.Push.{
  upon, unless_answered, if_checked, record_after_put, store_content, gate_write,
}

module _ (P : Registry → Type 0) where
  pub upon-keeps {ℓ} :
      {A : Type ℓ} (r : Registry × Result Thrown A) (next : Registry → A → Outcome)
      → P r.0
      → ((this : Registry) (a : A) → r ≡ (this, ok a) → P this → P (next this a).0)
      → P (upon r next).0
  upon-keeps (this, err thrown) next p keep = p
  upon-keeps (this, ok a) next p keep = keep this a refl p

  pub unless_answered-keeps :
      (r : Registry × Result Thrown (Option Response)) (next : Registry → Outcome)
      → P r.0
      → ((this : Registry) → r ≡ (this, ok none) → P this → P (next this).0)
      → P (unless_answered r next).0
  unless_answered-keeps (this, err thrown) next p keep = p
  unless_answered-keeps (this, ok (some response)) next p keep = p
  unless_answered-keeps (this, ok none) next p keep = keep this refl p

  pub if_checked-keeps {ℓ} :
      {A : Type ℓ} (this : Registry) (m : Result Response A) (next : A → Outcome)
      → P this
      → ((a : A) → m ≡ ok a → P (next a).0)
      → P (if_checked this m next).0
  if_checked-keeps this (err response) next p keep = p
  if_checked-keeps this (ok a) next p keep = keep a refl

module _ (platform : Platform) where
  uploads-record_after_put :
      (this : Registry) (call : Call) (name key : String) (kind : MembershipKind)
      (stored : Blobs × Result String String)
      → (record_after_put platform this call name key kind stored).0.uploads ≡ this.uploads
  uploads-record_after_put this call name key kind (blobs, err message) = refl
  uploads-record_after_put this call name key kind (blobs, ok d) = refl

  pub uploads-store_content :
      (this : Registry) (call : Call) (name key : String) (kind : MembershipKind) (bytes : List ℕ)
      → (store_content platform this call name key kind bytes).0.uploads ≡ this.uploads
  unfolding store_content
  uploads-store_content this call name key kind bytes =
      uploads-record_after_put this call name key kind _

  blobs-record_after_put :
      (this : Registry) (call : Call) (name key : String) (kind : MembershipKind)
      (stored : Blobs × Result String String)
      → (record_after_put platform this call name key kind stored).0.blobs ≡ stored.0
  blobs-record_after_put this call name key kind (blobs, err message) = refl
  blobs-record_after_put this call name key kind (blobs, ok d) = refl

  pub blobs-store_content :
      (this : Registry) (call : Call) (name key : String) (kind : MembershipKind) (bytes : List ℕ)
      → (store_content platform this call name key kind bytes).0.blobs
        ≡ (put platform.sha256 platform.blake3 blob_chunk_size bytes (some key) this.blobs).0
  unfolding store_content
  blobs-store_content this call name key kind bytes =
      blobs-record_after_put this call name key kind
        (put platform.sha256 platform.blake3 blob_chunk_size bytes (some key) this.blobs)

  module _ (rt : Runtime) (env : Env) where
    pub gate_write-uploads :
        (this : Registry) (call : Call) (name : String)
        → ((gate_write platform rt env this call name).0.uploads ≡ this.uploads)
          × ((gate_write platform rt env this call name).0.blobs ≡ this.blobs)
    unfolding gate_write
    gate_write-uploads this call name = (refl, refl)

pub or_return-ok {ℓ} :
    {A : Type ℓ} (o : Option A) (response : Response) (a : A)
    → or_return o response ≡ ok a
    → o ≡ some a
or_return-ok none response a h = cc
or_return-ok (some b) response a h = ap some (ok-injective h)
