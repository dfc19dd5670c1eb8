-- ===== src/Routes/OciRegistry/ManifestPut.antt =====
-- src/routes/oci-registry.ts: the write of a manifest.
use cloister.Prelude.{ℕ, String, not, Option, none, some, List, length}
use cloister.Prelude.Keys.{◌==◌, nat_eq, string_eq}
use cloister.Prelude.Results.{Result, ok, ◌>>=◌, ◌>>◌, guard}
use cloister.Prelude.Text.{◌&◌}
use cloister.Storage.RegistryMembership.{manifest}
use cloister.TrustStore.Rpc.{upsert_registry_tag}
use cloister.Routes.OciRegistry.Names.{is_tag, sha256_part, sha256_ref}
use cloister.Routes.OciRegistry.Responses.{Response, oci_error, manifest_created_response}
use cloister.Routes.OciRegistry.Types.{Platform, Registry, Call, Outcome}
use cloister.Routes.OciRegistry.Pull.{or_return}
use cloister.Routes.OciRegistry.Push.{
  upon, if_checked, check_actual_size, check_content_length_header, verify_claimed_digest,
  store_content,
}

module _ (platform : Platform) (max_blob_bytes : ℕ) where
  -- The key of a manifest: the digest that is named, or that of a tagged body.
  abbrev pub manifest_key : List ℕ → String → Result Response String
  manifest_key body reference = elim (sha256_part reference) [
    | some hex ↦ or_return (verify_claimed_digest platform body reference) (
        oci_error 400 "DIGEST_INVALID" (
          "manifest digest mismatch: ref=" & reference & " body matches neither sha256 nor blake3"))
    | none ↦
        (guard (is_tag reference) (oci_error 400 "MANIFEST_INVALID" ("invalid tag: " & reference))
          >> ok (platform.sha256 body))
  ]

  abbrev pub header_check : List ℕ → Option String → Result Response (Unit {0})
  header_check body none = ok tt
  header_check body (some header) = do
    key ← or_return (verify_claimed_digest platform body header) (
        oci_error 400 "DIGEST_INVALID"
          ("header digest mismatch: header=" & header & " body matches neither sha256 nor blake3"))
    ok tt

  abbrev pub manifest_checks : Call → String → Result Response String
  manifest_checks call reference = do
    check_content_length_header max_blob_bytes call.content_length
    check_actual_size max_blob_bytes (length call.body)
    guard (not (length call.body == 0)) (oci_error 400 "MANIFEST_INVALID" "empty manifest body")
    key ← manifest_key call.body reference
    header_check call.body call.docker_content_digest
    ok key

  -- A digest as the reference gets no tag.
  abbrev pub tagged : Registry → Call → String → String → String → Option String → Registry
  tagged this call name reference key (some hex) = this
  tagged this call name reference key none = record this {
    trust = upsert_registry_tag this.trust name reference (sha256_ref key) call.now_ms;
  }

  abbrev pub tag_manifest : Registry → Call → String → String → String → Registry
  tag_manifest this call name reference key =
      tagged this call name reference key (sha256_part reference)

  abbrev pub answer_manifest : Call → String → String → String → Registry → Unit {0} → Outcome
  answer_manifest call name reference key this done =
      (tag_manifest this call name reference key, ok (manifest_created_response name reference key))

  abbrev pub store_manifest : Registry → Call → String → String → String → Outcome
  store_manifest this call name reference key =
      upon (store_content platform this call name key manifest call.body)
        (answer_manifest call name reference key)

  unfoldable pub put_manifest : Registry → Call → String → String → Outcome
  put_manifest this call name reference =
      if_checked this (manifest_checks call reference) (store_manifest this call name reference)
