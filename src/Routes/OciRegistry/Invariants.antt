-- ===== src/Routes/OciRegistry/Invariants.antt =====
-- src/routes/oci-registry.ts: what every write keeps, every request keeps.
use cloister.Prelude.{ℕ, ap, subst, String, Option, none, some}
use cloister.Prelude.Results.{guard}
use cloister.Routes.LeaseGate.{Env}
use cloister.Routes.LeaseMiddleware.Types.{Runtime}
use cloister.Routes.OciRegistry.Names.{is_repo_name}
use cloister.Routes.OciRegistry.Types.{Platform, Registry, Call, Outcome}
use cloister.Routes.OciRegistry.Pull.{name_invalid}
use cloister.Routes.OciRegistry.Push.{unless_answered, gate_write}
use cloister.Routes.OciRegistry.Uploads.{
  open_session, upload_monolithic, append_chunk, finalize_upload,
}
use cloister.Routes.OciRegistry.ManifestPut.{put_manifest}
use cloister.Routes.OciRegistry.Steps.{unless_answered-keeps, if_checked-keeps}
use cloister.Routes.OciRegistry.{
  Endpoint, begin_upload, patch_upload, end_upload, push_manifest, version, catalog, tags,
  pull_manifest, pull_blob, endpoint_of, authorized, begun, serve, answer, handle,
}

module _ (rt : Runtime) (platform : Platform) (env : Env) (max_blob_bytes : ℕ)
    (Before After : Registry → Type 0) (this : Registry) (call : Call)
    (weaken : (this : Registry) → Before this → After this)
    (gate : (this : Registry) (name : String)
      → Before this
      → Before (gate_write platform rt env this call name).0)
    (opened : (this : Registry) (name : String)
      → Before this
      → After (open_session platform max_blob_bytes this call name).0)
    (uploaded : (this : Registry) (name claimed : String)
      → Before this
      → After (upload_monolithic platform max_blob_bytes this call name claimed).0)
    (appended : (this : Registry) (name uuid : String)
      → Before this
      → After (append_chunk platform max_blob_bytes this call name uuid).0)
    (finalized : (this : Registry) (name uuid : String)
      → Before this
      → After (finalize_upload platform max_blob_bytes this call name uuid).0)
    (pushed : (this : Registry) (name reference : String)
      → Before this
      → After (put_manifest platform max_blob_bytes this call name reference).0) where
  authorized-keeps :
      (name : String) (next : Registry → Outcome)
      → ((this : Registry) → Before this → After (next this).0)
      → Before this
      → After (authorized rt platform env max_blob_bytes this call name next).0
  authorized-keeps name next keep p =
      if_checked-keeps After this (guard (is_repo_name name) (name_invalid name))
        (λ valid. unless_answered (gate_write platform rt env this call name) next) (weaken this p)
        (λ valid checked.
          unless_answered-keeps After (gate_write platform rt env this call name) next
            (weaken _ (gate this name p))
            (λ this' admitted p'.
              keep this' (subst Before (ap (λ r. r.0) admitted) (gate this name p))))

  begun-keeps :
      (name : String) (claimed : Option String) (this' : Registry)
      → Before this'
      → After (begun rt platform env max_blob_bytes call name claimed this').0
  begun-keeps name none this' p = opened this' name p
  begun-keeps name (some claimed) this' p = uploaded this' name claimed p

  answer-keeps :
      (endpoint : Option Endpoint)
      → Before this
      → After (answer rt platform env max_blob_bytes this call endpoint).0
  unfolding serve
  answer-keeps none p = weaken this p
  answer-keeps (some (begin_upload name)) p =
      authorized-keeps name
        (begun rt platform env max_blob_bytes call name (platform.patterns.digest_param call.url))
        (begun-keeps name (platform.patterns.digest_param call.url)) p
  answer-keeps (some (patch_upload name uuid)) p =
      authorized-keeps name (λ this. append_chunk platform max_blob_bytes this call name uuid)
        (λ this'. appended this' name uuid) p
  answer-keeps (some (end_upload name uuid)) p =
      authorized-keeps name (λ this. finalize_upload platform max_blob_bytes this call name uuid)
        (λ this'. finalized this' name uuid) p
  answer-keeps (some (push_manifest name reference)) p =
      authorized-keeps name (λ this. put_manifest platform max_blob_bytes this call name reference)
        (λ this'. pushed this' name reference) p
  answer-keeps (some version) p = weaken this p
  answer-keeps (some catalog) p = weaken this p
  answer-keeps (some (tags name)) p = weaken this p
  answer-keeps (some (pull_manifest name reference)) p = weaken this p
  answer-keeps (some (pull_blob name digest)) p = weaken this p

  pub handle-keeps : Before this → After (handle rt platform env max_blob_bytes this call).0
  unfolding handle
  handle-keeps p = answer-keeps (endpoint_of platform.patterns call.method call.url) p
