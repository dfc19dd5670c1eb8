-- ===== src/Routes/OciRegistry/Manifests.antt =====
-- src/routes/oci-registry.ts: a manifest that is pushed is pulled back.
use cloister.Prelude.{
  ℕ, ◌≡◌, refl, sym, ap, subst, ◌∙◌, String, Bool, true, false, not, Option, none, some, List,
  if◌then◌else◌, length,
}
use cloister.Prelude.Keys.{◌==◌, ==_refl, string_eq, nat_eq}
use cloister.Prelude.Results.{ok, bind-ok, then-ok, guard-ok, ok-injective, guard, ◌>>◌}
use cloister.Storage.RegistryMembership.{manifest}
use cloister.Storage.Workerd.{storage_key}
use cloister.Storage.Workerd.Refs.{is_digest}
use cloister.Storage.RegistryTags.Index.{get-upsert_tag}
use cloister.TrustStore.{TrustStore}
use cloister.TrustStore.Rpc.{
  has_registry_membership, get_registry_manifest_digest_for_tag, upsert_registry_tag,
}
use cloister.Routes.OciRegistry.Names.{is_repo_name, is_tag, sha256_part, sha256_ref}
use cloister.Routes.OciRegistry.Responses.{
  manifest_response, manifest_head_response, manifest_created_response,
}
use cloister.Routes.OciRegistry.Types.{Platform, Registry, Call}
use cloister.Routes.OciRegistry.Pull.{get_manifest, manifest_digest, read_blob, or_return}
use cloister.Routes.OciRegistry.Push.{
  upon, if_checked, verify_claimed_digest, check_content_length_header, check_actual_size,
}
use cloister.Routes.OciRegistry.ManifestPut.{
  put_manifest, store_manifest, manifest_key, header_check, tagged, manifest_checks, tag_manifest,
  answer_manifest,
}
use cloister.Routes.OciRegistry.Steps.{or_return-ok}
use cloister.Routes.OciRegistry.Contents.{Represents, IsSeparate}
use cloister.Routes.OciRegistry.Stored.{
  sha256_part-sha256_ref, sha256_ref-nonempty, verify_claimed_digest-some, IsStored,
  store_content-IsStored,
}

module _ (platform : Platform) where
  pull_manifest :
      (this : Registry) (name reference key : String) (bytes : List ℕ) (is_head : Bool)
      → is_repo_name name ≡ true
      → manifest_digest this.trust name reference ≡ ok key
      → IsStored platform bytes name key manifest this
      → get_manifest platform.media_type this.trust this.blobs is_head name reference ≡ (
          if is_head
          then manifest_head_response key
          else manifest_response platform.media_type bytes key)
  unfolding get_manifest read_blob
  pull_manifest this name reference key bytes true valid named ((got, there), member) =
      rw (valid, named, member, there) refl
  pull_manifest this name reference key bytes false valid named ((got, there), member) =
      rw (valid, named, member, got) refl

  -- A reference to a digest, and a tag that stands for one.
  named_by_digest :
      (trust : TrustStore) (name reference key : String)
      → sha256_part reference ≡ some key
      → is_digest key ≡ true
      → manifest_digest trust name reference ≡ ok key
  unfolding manifest_digest
  named_by_digest trust name reference key part digest = rw (manifest_digest, part, digest) refl

  named_by_tag :
      (trust : TrustStore) (name tag key : String)
      → sha256_part tag ≡ none
      → is_tag tag ≡ true
      → get_registry_manifest_digest_for_tag trust name tag ≡ some (sha256_ref key)
      → is_digest key ≡ true
      → manifest_digest trust name tag ≡ ok key
  unfolding manifest_digest
  named_by_tag trust name tag key part valid found digest =
      rw
        (
          manifest_digest,
          part,
          valid,
          found,
          sha256_ref-nonempty key,
          sha256_part-sha256_ref key,
          digest,
        )
        refl

  get-upsert_registry_tag :
      (trust : TrustStore) (name tag d : String) (now_ms : ℕ)
      → get_registry_manifest_digest_for_tag (upsert_registry_tag trust name tag d now_ms) name tag
        ≡ some d
  unfolding get_registry_manifest_digest_for_tag upsert_registry_tag
  get-upsert_registry_tag trust name tag d now_ms =
      get-upsert_tag trust.registry_tags name tag d now_ms name tag
      ∙ rw (==_refl name, ==_refl tag) refl

  -- The key of a manifest that is accepted, by the kind of its reference.
  abbrev IsAccepted : List ℕ → String → String → Option String → Type 0
  IsAccepted bytes reference key (some hex) = sha256_part reference ≡ some key
  IsAccepted bytes reference key none = is_tag reference ≡ true

  module _ (max_blob_bytes : ℕ) where
    key_of :
        (bytes : List ℕ) (reference key : String) (part : Option String)
        → sha256_part reference ≡ part
        → is_digest (platform.sha256 bytes) ≡ true
        → manifest_key platform max_blob_bytes bytes reference ≡ ok key
        → (is_digest key ≡ true)
          × (storage_key platform.sha256 platform.blake3 bytes (some key) ≡ ok key)
          × IsAccepted bytes reference key part
    unfolding storage_key
    key_of bytes reference key none e digest h =
        let h' : (guard (is_tag reference) _ >> ok (platform.sha256 bytes)) ≡ ok key =
          rw (manifest_key, e) at h in
        let (valid, same) = guard-ok (is_tag reference) _ h' in
        let k = ok-injective same in
        (
          subst (λ d. is_digest d ≡ true) k digest,
          rw (sym k, ==_refl (platform.sha256 bytes)) refl,
          valid,
        )
    key_of bytes reference key (some hex) e digest h =
        let h' : or_return (verify_claimed_digest platform bytes reference) _ ≡ ok key =
          rw (manifest_key, e) at h in
        let (part, good, accepted) =
          verify_claimed_digest-some platform bytes reference key (or_return-ok _ _ key h') in
        (good, accepted, part)

    key-manifest_checks :
        (call : Call) (reference key : String)
        → manifest_checks platform max_blob_bytes call reference ≡ ok key
        → manifest_key platform max_blob_bytes call.body reference ≡ ok key
    key-manifest_checks call reference key h =
        let (declared, h₁) =
          then-ok (check_content_length_header max_blob_bytes call.content_length) h in
        let (fits, h₂) = then-ok (check_actual_size max_blob_bytes (length call.body)) h₁ in
        let (full, h₃) = guard-ok (not (length call.body == 0)) _ h₂ in
        let (k, found, h₄) =
          bind-ok (manifest_key platform max_blob_bytes call.body reference) h₃ in
        let (checked, same) =
          then-ok (header_check platform max_blob_bytes call.body call.docker_content_digest) h₄ in
        found ∙ same

    -- The tag leaves what is stored, and resolves.
    tagged-IsStored :
        (this : Registry) (call : Call) (name reference key : String) (part : Option String)
        → sha256_part reference ≡ part
        → is_digest key ≡ true
        → IsAccepted call.body reference key part
        → IsStored platform call.body name key manifest this
        → IsStored platform call.body name key manifest
            (tagged platform max_blob_bytes this call name reference key part)
          × (manifest_digest
                (tagged platform max_blob_bytes this call name reference key part).trust
                name
                reference
              ≡ ok key)
    unfolding upsert_registry_tag has_registry_membership
    tagged-IsStored this call name reference key (some hex) e digest accepted kept =
        (kept, named_by_digest this.trust name reference key accepted digest)
    tagged-IsStored this call name reference key none e digest accepted kept = (
      kept,
      named_by_tag _ name reference key e accepted
          (get-upsert_registry_tag this.trust name reference (sha256_ref key) call.now_ms) digest,
    )

    -- Each key of the blob store holds just the content of that digest or nothing, no other content has a
    -- digest of the body, and the text of the body's SHA-256 is a digest. Then a manifest for a repository's
    -- valid name that passes the checks answers 201 with the key that the checks give. It can be pulled from
    -- that repository by the reference of the request, a tag or a digest, and by the key, with HEAD and with
    -- GET, which gives exactly the body.
    pub put_manifest-get_manifest :
        (content : String → List ℕ) (this : Registry) (call : Call) (name reference key : String)
        → is_repo_name name ≡ true
        → is_digest (platform.sha256 call.body) ≡ true
        → Represents content this.blobs
        → IsSeparate platform content call.body
        → manifest_checks platform max_blob_bytes call reference ≡ ok key
        → (after : Registry) × (put_manifest platform max_blob_bytes this call name reference
            ≡ (after, ok (manifest_created_response name reference key)))
          × ((is_head : Bool)
              → (get_manifest platform.media_type after.trust after.blobs is_head name reference ≡ (
                  if is_head
                  then manifest_head_response key
                  else manifest_response platform.media_type call.body key))
                × (get_manifest platform.media_type after.trust after.blobs is_head name
                      (sha256_ref key)
                    ≡ (if is_head
                        then manifest_head_response key
                        else manifest_response platform.media_type call.body key)))
    unfolding put_manifest
    put_manifest-get_manifest content this call name reference key valid hashed held separate
          checked =
        let (digest, accepted, kind) =
          key_of call.body reference key (sha256_part reference) refl hashed
            (key-manifest_checks call reference key checked) in
        let (stored, done, kept, uploads) =
          store_content-IsStored platform content this call name key manifest call.body accepted
            separate held in
        let after = tag_manifest platform max_blob_bytes stored call name reference key in
        let (kept', named) =
          tagged-IsStored stored call name reference key (sha256_part reference) refl digest kind
            kept in
        (
          after,
          ap
                (λ m.
                  if_checked this m
                    (store_manifest platform max_blob_bytes this call name reference))
                checked
              ∙ ap (λ r. upon r (answer_manifest platform max_blob_bytes call name reference key))
                  done,
          λ is_head. (
            pull_manifest after name reference key call.body is_head valid named kept',
            pull_manifest after name (sha256_ref key) key call.body is_head valid
                (named_by_digest after.trust name (sha256_ref key) key (sha256_part-sha256_ref key)
                  digest)
                kept',
          ),
        )
