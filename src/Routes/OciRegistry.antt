-- ===== src/Routes/OciRegistry.antt =====
-- src/routes/oci-registry.ts: the registry's route, with the stores and the gate behind it. The parameters
-- are the lease path's runtime, what the route takes from the platform, the environment and the cap.
pub mod Names
pub mod Responses
pub mod Types
pub mod Pull
pub mod Push
pub mod Uploads
pub mod ManifestPut
pub mod Dispatch
pub mod Steps
pub mod Invariants
pub mod Sessions
pub mod Bounds
pub mod Isolation
pub mod Gated
pub mod Contents
pub mod Stored
pub mod RoundTrip
pub mod Refusals
pub mod Manifests
mod Tests
use cloister.Prelude.{
  ℕ, String, Bool, true, false, ◌&&◌, ◌||◌, Option, none, some, is_some, if◌then◌else◌,
}
use cloister.Prelude.Keys.{◌==◌, string_eq}
use cloister.Prelude.Results.{ok, guard}
use cloister.Routes.LeaseGate.{Env}
use cloister.Routes.LeaseMiddleware.Types.{Runtime}
use cloister.Routes.OciRegistry.Names.{is_repo_name}
use cloister.Routes.OciRegistry.Responses.{Response, version_object, json_response, oci_error}
use cloister.Routes.OciRegistry.Types.{Patterns, Platform, Registry, Call, Outcome}
use cloister.Routes.OciRegistry.Pull.{name_invalid, get_catalog, get_tags, get_manifest, get_blob}
use cloister.Routes.OciRegistry.Push.{if_checked, unless_answered, gate_write}
use cloister.Routes.OciRegistry.Uploads.{
  upload_monolithic, open_session, append_chunk, finalize_upload,
}
use cloister.Routes.OciRegistry.ManifestPut.{put_manifest}

-- What a request asks for, with the groups of its URL.
pub data Endpoint : Type 0 where
  begin_upload : (name : String) → Endpoint
  patch_upload : (name uuid : String) → Endpoint
  end_upload : (name uuid : String) → Endpoint
  push_manifest : (name reference : String) → Endpoint
  version catalog : Endpoint
  tags : (name : String) → Endpoint
  pull_manifest : (name reference : String) → Endpoint
  pull_blob : (name digest : String) → Endpoint

-- `if (test) ...` around a pattern, and the pattern that is tried next.
abbrev pub when : Bool → Option Endpoint → Option Endpoint
when true found = found
when false found = none

infixl 30 ◌otherwise◌
abbrev pub ◌otherwise◌ : Option Endpoint → Option Endpoint → Option Endpoint
some endpoint otherwise next = some endpoint
none otherwise next = next

abbrev pub one_group : (String → Endpoint) → Option String → Option Endpoint
one_group make none = none
one_group make (some name) = some (make name)

abbrev pub two_groups : (String → String → Endpoint) → Option (String × String) → Option Endpoint
two_groups make none = none
two_groups make (some (name, rest)) = some (make name rest)

abbrev pub no_group : Endpoint → Option (Unit {0}) → Option Endpoint
no_group endpoint none = none
no_group endpoint (some found) = some endpoint

module _ (patterns : Patterns) where
  unfoldable pub matches : String → String → Bool
  matches method url =
      if method == "GET" || method == "HEAD"
      then is_some (patterns.version url)
        || is_some (patterns.version_no_slash url)
        || is_some (patterns.catalog url)
        || is_some (patterns.tags url)
        || is_some (patterns.manifest url)
        || is_some (patterns.blob url)
      else if method == "POST"
      then is_some (patterns.upload_begin url)
      else if method == "PATCH" || method == "PUT"
      then is_some (patterns.upload_session url)
        || (method == "PUT" && is_some (patterns.manifest url))
      else false

  -- The order in which `handle` tries the patterns.
  unfoldable pub endpoint_of : String → String → Option Endpoint
  endpoint_of method url =
      when (method == "POST") (one_group begin_upload (patterns.upload_begin url))
      otherwise when (method == "PATCH") (two_groups patch_upload (patterns.upload_session url))
      otherwise when (method == "PUT") (two_groups end_upload (patterns.upload_session url))
      otherwise when (method == "PUT") (two_groups push_manifest (patterns.manifest url))
      otherwise no_group version (patterns.version url)
      otherwise no_group version (patterns.version_no_slash url)
      otherwise no_group catalog (patterns.catalog url)
      otherwise one_group tags (patterns.tags url)
      otherwise two_groups pull_manifest (patterns.manifest url)
      otherwise two_groups pull_blob (patterns.blob url)

module _ (rt : Runtime) (platform : Platform) (env : Env) (max_blob_bytes : ℕ) where
  -- The name and the lease come before every write.
  abbrev pub authorized : Registry → Call → String → (Registry → Outcome) → Outcome
  authorized this call name next =
      if_checked this (guard (is_repo_name name) (name_invalid name))
        (λ valid. unless_answered (gate_write platform rt env this call name) next)

  abbrev pub begun : Call → String → Option String → Registry → Outcome
  begun call name none this = open_session platform max_blob_bytes this call name
  begun call name (some claimed) this =
      upload_monolithic platform max_blob_bytes this call name claimed

  unfoldable pub serve : Registry → Call → Endpoint → Outcome
  serve this call (begin_upload name) =
      authorized this call name (begun call name (platform.patterns.digest_param call.url))
  serve this call (patch_upload name uuid) =
      authorized this call name (λ this. append_chunk platform max_blob_bytes this call name uuid)
  serve this call (end_upload name uuid) =
      authorized this call name
        (λ this. finalize_upload platform max_blob_bytes this call name uuid)
  serve this call (push_manifest name reference) =
      authorized this call name
        (λ this. put_manifest platform max_blob_bytes this call name reference)
  serve this call version = (this, ok (json_response version_object))
  serve this call catalog = (this, ok (get_catalog this.trust))
  serve this call (tags name) = (this, ok (get_tags this.trust name))
  serve this call (pull_manifest name reference) = (
    this,
    ok (
        get_manifest platform.media_type this.trust this.blobs (call.method == "HEAD") name
          reference),
  )
  serve this call (pull_blob name digest) =
      (this, ok (get_blob this.trust this.blobs (call.method == "HEAD") name digest))

  abbrev pub not_implemented : Response
  not_implemented = oci_error 404 "UNSUPPORTED" "endpoint not implemented"

  abbrev pub answer : Registry → Call → Option Endpoint → Outcome
  answer this call none = (this, ok not_implemented)
  answer this call (some endpoint) = serve this call endpoint

  unfoldable pub handle : Registry → Call → Outcome
  unfolding endpoint_of serve
  handle this call = answer this call (endpoint_of platform.patterns call.method call.url)
