-- ===== src/Routes/OciRegistry/Push.antt =====
-- src/routes/oci-registry.ts: the gate, the checks and the store that the writes share.
use cloister.Prelude.{
  ℕ, ◌+◌, ◌-◌, String, false, Option, none, some, List, [], ◌∷◌, ◌++◌, length, leb, replicate,
  if◌then◌else◌,
}
use cloister.Prelude.Keys.{◌==◌, nat_eq, string_eq}
use cloister.Prelude.Results.{Result, ok, err, guard}
use cloister.Prelude.Text.{◌&◌, decimal}
use cloister.Prelude.Chars.{Parsed, nan, minus, plus, parse_int, infinite_from}
use cloister.Storage.CaBundleCache.{Cache}
use cloister.Storage.RegistryMembership.{MembershipKind}
use cloister.Storage.Workerd.{Blobs, blob_chunk_size, put}
use cloister.TrustStore.{TrustStore}
use cloister.TrustStore.Rpc.{record_registry_membership}
use cloister.Routes.LeaseGate.{Env}
use cloister.Routes.LeaseMiddleware.Types.{Runtime, LeaseRequest, Failure}
use cloister.Routes.LeaseMiddleware.{GateVerdict, off, pass, reject, gate_and_verify}
use cloister.Routes.OciRegistry.Names.{parse_sha256_param}
use cloister.Routes.OciRegistry.Responses.{Response, oci_error}
use cloister.Routes.OciRegistry.Types.{
  Platform, UploadSession, Registry, Call, Thrown, gate_threw, put_threw, Outcome,
}

abbrev pub upload_key : UploadSession → String
upload_key session = session.uuid

abbrev pub denied : Response
denied = oci_error 401 "DENIED" "authentication required"

abbrev pub upload_unknown : String → Response
upload_unknown uuid = oci_error 404 "BLOB_UPLOAD_UNKNOWN" ("upload not found: " & uuid)

abbrev pub digest_malformed : String → Response
digest_malformed claimed =
    oci_error 400 "DIGEST_INVALID" ("digest must be sha256:<64-hex>: " & claimed)

abbrev pub digest_mismatch : String → Response
digest_mismatch claimed =
    oci_error 400 "DIGEST_INVALID"
      ("digest mismatch: client=" & claimed & " body matches neither sha256 nor blake3")

-- `if (result !== null) return result`, with what may be thrown instead.
abbrev pub upon {ℓ} : {A : Type ℓ} → Registry × Result Thrown A → (Registry → A → Outcome) → Outcome
upon (this, err thrown) next = (this, err thrown)
upon (this, ok a) next = next this a

abbrev pub unless_answered :
    Registry × Result Thrown (Option Response) → (Registry → Outcome) → Outcome
unless_answered (this, err thrown) next = (this, err thrown)
unless_answered (this, ok (some response)) next = (this, ok response)
unless_answered (this, ok none) next = next this

-- The checks that end early answer without any change.
abbrev pub if_checked {ℓ} : {A : Type ℓ} → Registry → Result Response A → (A → Outcome) → Outcome
if_checked this (err response) next = (this, ok response)
if_checked this (ok a) next = next a

-- `chunks.push` and the new size; an empty body adds nothing.
abbrev pub with_chunk : List ℕ → UploadSession → UploadSession
with_chunk bytes session = if length bytes == 0 then session else record session {
  chunks = session.chunks ++ bytes ∷ [];
  size = session.size + length bytes;
}

unfoldable pub flatten : List (List ℕ) → List ℕ
flatten [] = []
flatten (chunk ∷ chunks) = chunk ++ flatten chunks

-- A buffer of `size` zeros with the chunks copied to its front. A copy past its end would throw; a
-- session's size is the sum of its chunks.
unfoldable pub concat_chunks : List (List ℕ) → ℕ → List ℕ
unfolding flatten
concat_chunks chunks size = flatten chunks ++ replicate (size - length (flatten chunks)) 0

module _ (max_blob_bytes : ℕ) where
  abbrev pub size_invalid : ℕ → Response
  size_invalid bytes =
      oci_error 413 "SIZE_INVALID"
        ("body of " & decimal bytes & " bytes exceeds maxBlobBytes=" & decimal max_blob_bytes)

  unfoldable pub check_actual_size : ℕ → Result Response (Unit {0})
  check_actual_size bytes = guard (leb bytes max_blob_bytes) (size_invalid bytes)

  abbrev declared_size : Parsed → Result Response (Unit {0})
  declared_size nan = ok tt
  declared_size (minus n) = ok tt
  declared_size (plus n) = if leb infinite_from n then ok tt else check_actual_size n

  unfoldable pub check_content_length_header : Option String → Result Response (Unit {0})
  unfolding check_actual_size
  check_content_length_header none = ok tt
  check_content_length_header (some value) = declared_size (parse_int value)

module _ (platform : Platform) where
  abbrev pub matching_digest : List ℕ → Option String → Option String
  matching_digest body none = none
  matching_digest body (some hex) =
      if platform.sha256 body == hex
      then some hex
      else if platform.blake3 body == hex
      then some hex
      else none

  -- The key, where the body has it as a digest of either kind.
  unfoldable pub verify_claimed_digest : List ℕ → String → Option String
  verify_claimed_digest body claimed = matching_digest body (parse_sha256_param claimed)

  -- `BlobStore.put` and then the membership of the repository.
  abbrev pub record_after_put :
      Registry
      → Call
      → String
      → String
      → MembershipKind
      → Blobs × Result String String
      → Registry × Result Thrown (Unit {0})
  record_after_put this call name key kind (blobs, err message) =
      (record this { blobs = blobs }, err (put_threw message))
  record_after_put this call name key kind (blobs, ok d) = (
    record this {
      blobs = blobs;
      trust = record_registry_membership this.trust name key kind call.now_ms none;
    },
    ok tt,
  )

  unfoldable pub store_content :
      Registry
      → Call
      → String
      → String
      → MembershipKind
      → List ℕ
      → Registry × Result Thrown (Unit {0})
  store_content this call name key kind bytes =
      record_after_put this call name key kind
        (put platform.sha256 platform.blake3 blob_chunk_size bytes (some key) this.blobs)

  module _ (rt : Runtime) (env : Env) where
    abbrev pub write_request : Call → String → LeaseRequest
    write_request call name = record {
      http_method = call.method;
      url = call.url;
      headers = call.headers;
      body = platform.decode_text call.body;
      method = "oci-write";
      params = record { name = none; repo = none };
      requested_scope = some ("oci:write:" & name);
      lease_call = call.lease_call;
    }

    abbrev pub admission : Result Failure GateVerdict → Result Thrown (Option Response)
    admission (err failure) = err (gate_threw failure)
    admission (ok (reject code message)) = ok (some denied)
    admission (ok off) = ok none
    admission (ok (pass lease)) = ok none

    abbrev pub gated :
        Registry
        → (Cache × TrustStore) × Result Failure GateVerdict
        → Registry × Result Thrown (Option Response)
    gated this ((cache, trust), verdict) =
        (record this { cache = cache; trust = trust }, admission verdict)

    unfoldable pub gate_write :
        Registry → Call → String → Registry × Result Thrown (Option Response)
    gate_write this call name = gated this (
        gate_and_verify rt env (this.cache, this.trust) call.fetch call.now_ms
          (write_request call name) false)
