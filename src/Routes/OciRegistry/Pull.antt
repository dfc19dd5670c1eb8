-- ===== src/Routes/OciRegistry/Pull.antt =====
-- src/routes/oci-registry.ts: the reads, which change nothing.
use cloister.Prelude.{ℕ, String, Bool, true, false, not, Option, none, some, List, length}
use cloister.Prelude.Keys.{◌==◌, nat_eq, string_eq}
use cloister.Prelude.Results.{Result, ok, err, ◌>>=◌, ◌>>◌, guard}
use cloister.Prelude.Text.{◌&◌}
use cloister.Storage.RegistryMembership.{blob, manifest}
use cloister.Storage.Workerd.{Blobs, get, has}
use cloister.Storage.Workerd.Refs.{is_digest}
use cloister.TrustStore.{TrustStore}
use cloister.TrustStore.Rpc.{
  get_registry_manifest_digest_for_tag, list_registry_tags_for_repo, list_registry_repos,
  has_registry_membership,
}
use cloister.Routes.OciRegistry.Names.{is_repo_name, is_tag, sha256_part}
use cloister.Routes.OciRegistry.Responses.{
  Response, repositories, tags_of, json_response, oci_error, manifest_response,
  manifest_head_response, blob_response, blob_head_response,
}

abbrev pub name_invalid : String → Response
name_invalid name = oci_error 400 "NAME_INVALID" ("invalid repository name: " & name)

abbrev pub manifest_unknown : String → Response
manifest_unknown reference = oci_error 404 "MANIFEST_UNKNOWN" ("manifest unknown: " & reference)

abbrev pub blob_unknown : String → Response
blob_unknown digest = oci_error 404 "BLOB_UNKNOWN" ("blob unknown: " & digest)

-- An early return is an error of the chain.
abbrev pub returned : Result Response Response → Response
returned (ok response) = response
returned (err response) = response

abbrev pub or_return {ℓ} : {A : Type ℓ} → Option A → Response → Result Response A
or_return none response = err response
or_return (some a) response = ok a

unfoldable pub get_catalog : TrustStore → Response
get_catalog trust = json_response (repositories (list_registry_repos trust))

unfoldable pub get_tags : TrustStore → String → Response
get_tags trust name =
    let tags = list_registry_tags_for_repo trust name in
    returned (do
      guard (is_repo_name name) (name_invalid name)
      guard (not (length tags == 0))
          (oci_error 404 "NAME_UNKNOWN" ("repository name not known: " & name))
      ok (json_response (tags_of name tags)))

-- What the tag index holds is checked before it is used.
abbrev stored_digest : String → Result Response String
stored_digest d = do
  hex ←
      or_return (sha256_part d)
        (oci_error 500 "UNSUPPORTED" ("tag-index digest has unexpected algorithm: " & d))
  guard (is_digest hex) (oci_error 500 "UNSUPPORTED" ("tag-index digest malformed: " & d))
  ok hex

abbrev tagged_digest : TrustStore → String → String → Result Response String
tagged_digest trust name tag = do
  guard (is_tag tag) (manifest_unknown tag)
  d ← or_return (get_registry_manifest_digest_for_tag trust name tag) (manifest_unknown tag)
  guard (not (d == "")) (manifest_unknown tag)
  stored_digest d

abbrev named_digest : String → String → Result Response String
named_digest reference hex = do guard (is_digest hex) (manifest_unknown reference); ok hex

unfoldable pub manifest_digest : TrustStore → String → String → Result Response String
manifest_digest trust name reference = elim (sha256_part reference) [
  | some hex ↦ named_digest reference hex
  | none ↦ tagged_digest trust name reference
]

-- The end of both reads: HEAD asks only whether the blob is there.
unfoldable pub read_blob :
    Blobs → Bool → String → Response → Response → (List ℕ → Response) → Result Response Response
read_blob blobs true hex unknown there full = do guard (has hex blobs) unknown; ok there
read_blob blobs false hex unknown there full = do
  bytes ← or_return (get hex blobs) unknown
  ok (full bytes)

module _ (media_type : List ℕ → Option String) (trust : TrustStore) (blobs : Blobs) where
  unfoldable pub get_manifest : Bool → String → String → Response
  unfolding manifest_digest read_blob
  get_manifest is_head name reference = returned (do
    guard (is_repo_name name) (name_invalid name)
    hex ← manifest_digest trust name reference
    guard (has_registry_membership trust name hex manifest) (manifest_unknown reference)
    read_blob blobs is_head hex (manifest_unknown reference) (manifest_head_response hex)
        (λ bytes. manifest_response media_type bytes hex))

module _ (trust : TrustStore) (blobs : Blobs) where
  unfoldable pub get_blob : Bool → String → String → Response
  unfolding read_blob
  get_blob is_head name digest = returned (do
    guard (is_repo_name name) (name_invalid name)
    hex ← or_return (sha256_part digest) (blob_unknown digest)
    guard (is_digest hex) (blob_unknown digest)
    guard (has_registry_membership trust name hex blob) (blob_unknown digest)
    read_blob blobs is_head hex (blob_unknown digest) (blob_head_response hex)
        (λ bytes. blob_response bytes hex))
