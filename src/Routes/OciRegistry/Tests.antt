-- ===== src/Routes/OciRegistry/Tests.antt =====
-- A platform, an open session and requests.
use cloister.Prelude.{
  ℕ, ◌≡◌, refl, String, Bool, true, false, none, some, List, [], ◌∷◌, All, arith, leb, length,
  if◌then◌else◌,
}
use cloister.Prelude.Keys.{◌==◌, string_eq}
use cloister.Prelude.Results.{ok}
use cloister.Prelude.Chars.{cut_at}
use cloister.Prelude.Sort.{sort}
use cloister.Table.{find, exists, upsert}
use cloister.Storage.CaBundleCache.{fetch_null}
use cloister.Storage.RegistryMembership.{MembershipKind, has_membership}
use cloister.Storage.Workerd.{Blobs, no_blobs, get, has}
use cloister.Storage.Workerd.Refs.{is_digest, hex_digits}
use cloister.TrustStore.{TrustStore}
use cloister.TrustStore.Rpc.{has_registry_membership}
use cloister.Routes.Hop.{reached}
use cloister.Routes.LeaseGate.{Env}
use cloister.Routes.LeaseMiddleware.Types.{Runtime}
use cloister.Routes.OciRegistry.Names.{
  all_chars, is_repo_name, is_tag, sha256_part, parse_sha256_param, sha256_ref,
}
use cloister.Routes.OciRegistry.Responses.{
  blob_response, blob_head_response, manifest_response, manifest_head_response,
  blob_created_response, manifest_created_response,
}
use cloister.Routes.OciRegistry.Types.{Patterns, Platform, UploadSession, Registry, Call}
use cloister.Routes.OciRegistry.Pull.{get_blob, get_manifest}
use cloister.Routes.OciRegistry.Push.{
  upload_key, digest_mismatch, flatten, check_actual_size, check_content_length_header,
  verify_claimed_digest, concat_chunks,
}
use cloister.Routes.OciRegistry.Uploads.{finalize_checks, finalize_upload}
use cloister.Routes.OciRegistry.ManifestPut.{manifest_checks, put_manifest}
use cloister.Routes.OciRegistry.{Endpoint, matches, endpoint_of, serve, handle}
use cloister.Routes.OciRegistry.Dispatch.{matched-served}
use cloister.Routes.OciRegistry.Sessions.{IsSound}
use cloister.Routes.OciRegistry.Bounds.{handle-AllSound}
use cloister.Routes.OciRegistry.Contents.{Represents, empty-Represents, handle-Represents}
use cloister.Routes.OciRegistry.Isolation.{Agree, pull_isolated}
use cloister.Routes.OciRegistry.Gated.{Guarded, written, handle-Guarded}
use cloister.Routes.OciRegistry.RoundTrip.{finalize_upload-get_blob}
use cloister.Routes.OciRegistry.Refusals.{finalize_upload-mismatch}
use cloister.Routes.OciRegistry.Manifests.{put_manifest-get_manifest}

abbrev digest_a : String
digest_a = "aaaaaaaaaaaaaaaaaaaaaaaaaaaaaaaaaaaaaaaaaaaaaaaaaaaaaaaaaaaaaaaa"

abbrev digest_b : String
digest_b = "bbbbbbbbbbbbbbbbbbbbbbbbbbbbbbbbbbbbbbbbbbbbbbbbbbbbbbbbbbbbbbbb"

-- Digests that tell the contents of the tests apart.
abbrev hash : List ℕ → String
hash bytes = if leb (length bytes) 2 then digest_a else digest_b

abbrev content : String → List ℕ
content d = if d == digest_a then 1 ∷ 2 ∷ [] else 7 ∷ 1 ∷ 2 ∷ []

abbrev patterns : Patterns
patterns = record {
  version = λ url. none;
  version_no_slash = λ url. none;
  catalog = λ url. none;
  tags = λ url. none;
  manifest = λ url. none;
  blob = λ url. none;
  upload_begin = λ url. none;
  upload_session = λ url. if url == "/v2/app/blobs/uploads/u1" then some ("app", "u1") else none;
  digest_param = λ url. some (sha256_ref digest_b);
}

abbrev platform : Platform
platform = record {
  patterns = patterns;
  sha256 = hash;
  blake3 = hash;
  decode_text = λ bytes. "";
  media_type = λ bytes. none;
}

abbrev runtime : Runtime
runtime = record {
  atob = λ s. none;
  btoa = λ bytes. "";
  json_parse = λ s. none;
  sha256 = λ bytes. [];
  sha256_text = λ s. [];
  leyline_verify_cert_path = λ cert master. none;
  ed25519_verify = λ key sig text. ok false;
  verify_bundle_signature = λ bundle root. false;
}

abbrev development : Env
development = record {
  cloister_mode = some "dev";
  dev_ca_master = none;
  interlace_root_pubkey = none;
  dev_ca_epoch = none;
}

abbrev empty : TrustStore
empty = record {
  lease_counters = [];
  seen_nonces = [];
  pending_attestations = [];
  peer_attestations = [];
  registry_tags = [];
  registry_blob_membership = [];
  peer_receipts = [];
  actor_ca_bundle = [];
  alarm_at = none;
}

abbrev session : UploadSession
session = record { uuid = "u1"; name = "app"; chunks = (7 ∷ []) ∷ []; size = 1 }

abbrev registry : Registry
registry = record { uploads = session ∷ []; blobs = no_blobs; cache = none; trust = empty }

abbrev finalize : Call
finalize = record {
  method = "PUT";
  url = "/v2/app/blobs/uploads/u1";
  headers = record {
    authorization = none;
    x_signet_sig = none;
    x_signet_ts = none;
    x_signet_nonce = none;
  };
  content_length = none;
  docker_content_digest = none;
  body = 1 ∷ 2 ∷ [];
  fetch = fetch_null;
  lease_call = reached;
  now_ms = 5;
  new_upload_id = "u2";
}

matched-served_example :
    (endpoint : Endpoint) × (endpoint_of patterns "PUT" "/v2/app/blobs/uploads/u1" ≡ some endpoint)
    × (handle runtime platform development 4 registry finalize
        ≡ serve runtime platform development 4 registry finalize endpoint)
unfolding matches
matched-served_example = matched-served runtime platform development 4 registry finalize refl

registry-IsSound : All (IsSound 4) registry.uploads
unfolding flatten
registry-IsSound = ((refl, omega arith), tt)

handle-AllSound_example :
    All (IsSound 4) (handle runtime platform development 4 registry finalize).0.uploads
handle-AllSound_example =
    handle-AllSound platform 4 runtime development registry finalize registry-IsSound

handle-Guarded_example :
    Guarded runtime platform development 4 registry finalize
      (handle runtime platform development 4 registry finalize)
      (written (endpoint_of patterns "PUT" "/v2/app/blobs/uploads/u1"))
handle-Guarded_example = handle-Guarded runtime platform development 4 registry finalize

handle-Represents_example :
    Represents content (handle runtime platform development 4 registry finalize).0.blobs
unfolding concat_chunks flatten
handle-Represents_example =
    handle-Represents platform 4 content runtime development registry finalize
      (empty-Represents content) ((refl, refl), ((refl, refl), tt))

-- Neither store holds what the repository is recorded for, and one holds another content.
abbrev other_blobs : Blobs
other_blobs = record { blobs = record { digest = digest_a; bytes = 1 ∷ [] } ∷ []; chunks = [] }

no_member :
    (hex : String) (kind : MembershipKind)
    → has_registry_membership empty "app" hex kind ≡ true
    → Agree no_blobs other_blobs hex
unfolding has_registry_membership has_membership find get has sort exists
no_member hex kind h = cc

pull_isolated_example :
    (get_blob empty no_blobs false "app" (sha256_ref digest_a)
      ≡ get_blob empty other_blobs false "app" (sha256_ref digest_a))
    × (get_manifest (platform.media_type) empty no_blobs false "app" (sha256_ref digest_a)
        ≡ get_manifest (platform.media_type) empty other_blobs false "app" (sha256_ref digest_a))
pull_isolated_example =
    pull_isolated (platform.media_type) empty no_blobs other_blobs "app" no_member false
      (sha256_ref digest_a)

app_valid : is_repo_name "app" ≡ true
unfolding is_repo_name all_chars
app_valid = refl

finalize_ok :
    finalize_checks platform 4 registry finalize "app" "u1" ≡ ok (sha256_ref digest_b, session)
unfolding find parse_sha256_param sha256_part cut_at is_digest hex_digits
    check_content_length_header check_actual_size
finalize_ok = refl

verified : verify_claimed_digest platform (7 ∷ 1 ∷ 2 ∷ []) (sha256_ref digest_b) ≡ some digest_b
unfolding verify_claimed_digest parse_sha256_param sha256_part cut_at is_digest hex_digits
verified = refl

finalize_upload-get_blob_example :
    (after : Registry) × (finalize_upload platform 4 registry finalize "app" "u1"
      ≡ (after, ok (blob_created_response "app" digest_b)))
    × (find upload_key "u1" after.uploads ≡ none)
    × ((is_head : Bool)
        → get_blob after.trust after.blobs is_head "app" (sha256_ref digest_b) ≡ (
            if is_head
            then blob_head_response digest_b
            else blob_response (7 ∷ 1 ∷ 2 ∷ []) digest_b))
unfolding flatten
finalize_upload-get_blob_example =
    finalize_upload-get_blob platform 4 content registry finalize "app" "u1" (sha256_ref digest_b)
      digest_b session app_valid registry-IsSound (empty-Represents content) (refl, refl)
      finalize_ok verified

-- The two bytes of the body alone have another digest.
abbrev alone : Registry
alone = record registry { uploads = record session { chunks = []; size = 0 } ∷ [] }

alone-IsSound : All (IsSound 4) alone.uploads
unfolding flatten
alone-IsSound = ((refl, omega arith), tt)

alone_ok :
    finalize_checks platform 4 alone finalize "app" "u1"
    ≡ ok (sha256_ref digest_b, record session { chunks = []; size = 0 })
unfolding find parse_sha256_param sha256_part cut_at is_digest hex_digits
    check_content_length_header check_actual_size
alone_ok = refl

alone_refused : verify_claimed_digest platform (1 ∷ 2 ∷ []) (sha256_ref digest_b) ≡ none
unfolding verify_claimed_digest parse_sha256_param sha256_part cut_at is_digest hex_digits
alone_refused = refl

finalize_upload-mismatch_example :
    (grown : UploadSession) × (after : Registry) × (finalize_upload platform 4 alone finalize "app"
        "u1"
      ≡ (after, ok (digest_mismatch (sha256_ref digest_b))))
    × (after.blobs ≡ no_blobs)
    × (after.trust ≡ empty)
    × (find upload_key "u1" after.uploads ≡ some grown)
    × (flatten grown.chunks ≡ 1 ∷ 2 ∷ [])
unfolding flatten
finalize_upload-mismatch_example =
    finalize_upload-mismatch platform 4 alone finalize "app" "u1" (sha256_ref digest_b)
      (record session { chunks = []; size = 0 }) alone-IsSound alone_ok alone_refused

-- The right claim for the two bytes is refused after a wrong one, since they are there twice by then.
abbrev right_claim : Platform
right_claim = record platform {
  patterns = record patterns { digest_param = λ url. some (sha256_ref digest_a) };
}

retry_refused :
    (finalize_upload right_claim 4
      (finalize_upload platform 4 alone finalize "app" "u1").0
      finalize
      "app"
      "u1").1
    ≡ ok (digest_mismatch (sha256_ref digest_a))
unfolding finalize_upload find upsert parse_sha256_param sha256_part cut_at is_digest hex_digits
    check_content_length_header check_actual_size verify_claimed_digest concat_chunks flatten
retry_refused = refl

tagged_ok : manifest_checks platform 4 finalize "v1" ≡ ok digest_a
unfolding check_content_length_header check_actual_size sha256_part cut_at is_tag all_chars
tagged_ok = refl

digest_a_valid : is_digest digest_a ≡ true
unfolding is_digest hex_digits
digest_a_valid = refl

put_manifest-get_manifest_example :
    (after : Registry) × (put_manifest platform 4 registry finalize "app" "v1"
      ≡ (after, ok (manifest_created_response "app" "v1" digest_a)))
    × ((is_head : Bool)
        → (get_manifest (platform.media_type) after.trust after.blobs is_head "app" "v1" ≡ (
            if is_head
            then manifest_head_response digest_a
            else manifest_response (platform.media_type) (1 ∷ 2 ∷ []) digest_a))
          × (get_manifest
                (platform.media_type)
                after.trust
                after.blobs
                is_head
                "app"
                (sha256_ref digest_a)
              ≡ (if is_head
                  then manifest_head_response digest_a
                  else manifest_response (platform.media_type) (1 ∷ 2 ∷ []) digest_a)))
put_manifest-get_manifest_example =
    put_manifest-get_manifest platform 4 content registry finalize "app" "v1" digest_a app_valid
      digest_a_valid (empty-Represents content) (refl, refl) tagged_ok
