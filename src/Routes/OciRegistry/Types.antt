-- ===== src/Routes/OciRegistry/Types.antt =====
-- src/routes/oci-registry.ts: the state behind the route, its requests and what it takes from the runtime.
use cloister.Prelude.{ℕ, String, Option, List, ◌*◌}
use cloister.Prelude.Results.{Result}
use cloister.Storage.CaBundleCache.{Cache, Fetched}
use cloister.Storage.Workerd.{Blobs}
use cloister.TrustStore.{TrustStore}
use cloister.Routes.Hop.{Hop}
use cloister.Routes.LeaseMiddleware.Headers.{AuthHeaders}
use cloister.Routes.LeaseMiddleware.Types.{Failure}
use cloister.Routes.OciRegistry.Responses.{Response}

-- The URL patterns, each with the groups of a match; `digest_param` is
-- `new URL(url).searchParams.get("digest")`.
pub record Patterns : Type 0 where
  pub version : String → Option (Unit {0})
  pub version_no_slash : String → Option (Unit {0})
  pub catalog : String → Option (Unit {0})
  pub tags : String → Option String
  pub manifest : String → Option (String × String)
  pub blob : String → Option (String × String)
  pub upload_begin : String → Option String
  pub upload_session : String → Option (String × String)
  pub digest_param : String → Option String

-- The digests of a body as hexadecimal texts, `Request.text()` on its bytes, and the field `mediaType` of
-- a JSON body.
pub record Platform : Type 0 where
  pub patterns : Patterns
  pub sha256 : List ℕ → String
  pub blake3 : List ℕ → String
  pub decode_text : List ℕ → String
  pub media_type : List ℕ → Option String

-- An open session, with the key under which it stands in the map.
pub record UploadSession : Type 0 where
  pub uuid : String
  pub name : String
  pub chunks : List (List ℕ)
  pub size : ℕ

abbrev pub default_max_blob_bytes : ℕ
default_max_blob_bytes = 256 * 1024 * 1024

-- The route's map of sessions and the two durable objects, with the isolate's cache of the bundle.
pub record Registry : Type 0 where
  pub uploads : List UploadSession
  pub blobs : Blobs
  pub cache : Cache
  pub trust : TrustStore

-- A request, what the authority would answer meanwhile, the fate of the gate's call of the TrustStore, the
-- time, and the identifier that a new session gets.
pub record Call : Type 0 where
  pub method : String
  pub url : String
  pub headers : AuthHeaders
  pub content_length : Option String
  pub docker_content_digest : Option String
  pub body : List ℕ
  pub fetch : Fetched
  pub lease_call : Hop
  pub now_ms : ℕ
  pub new_upload_id : String

-- An exception of the gate or of the blob store, which nothing catches.
pub data Thrown : Type 0 where
  gate_threw : Failure → Thrown
  put_threw : (message : String) → Thrown

abbrev pub Outcome : Type 0
Outcome = Registry × Result Thrown Response
