-- ===== src/Routes/OciRegistry/Isolation.antt =====
-- src/routes/oci-registry.ts: the pull gate keeps repositories apart.
use cloister.Prelude.{ℕ, ◌≡◌, refl, ap, String, Bool, true, false, Option, List}
use cloister.Prelude.Results.{Result, ok, err, ◌>>=◌, ◌>>◌, guard}
use cloister.Storage.RegistryMembership.{MembershipKind, blob, manifest}
use cloister.Storage.Workerd.{Blobs, get, has}
use cloister.Storage.Workerd.Refs.{is_digest}
use cloister.TrustStore.{TrustStore}
use cloister.TrustStore.Rpc.{has_registry_membership}
use cloister.Routes.OciRegistry.Names.{is_repo_name, sha256_part}
use cloister.Routes.OciRegistry.Responses.{
  Response, manifest_response, manifest_head_response, blob_response, blob_head_response,
}
use cloister.Routes.OciRegistry.Pull.{
  name_invalid, manifest_unknown, blob_unknown, returned, or_return, manifest_digest, read_blob,
  get_manifest, get_blob,
}

guard_same :
    (test : Bool) (response : Response) (x y : Result Response Response)
    → (test ≡ true → x ≡ y)
    → (guard test response >> x) ≡ (guard test response >> y)
guard_same true response x y same = same refl
guard_same false response x y same = refl

bind_same :
    (m : Result Response String) (f g : String → Result Response Response)
    → ((a : String) → f a ≡ g a)
    → (m >>= f) ≡ (m >>= g)
bind_same (ok a) f g same = same a
bind_same (err response) f g same = refl

-- The two stores answer alike about a digest.
abbrev pub Agree : Blobs → Blobs → String → Type 0
Agree a b hex = (get hex a ≡ get hex b) × (has hex a ≡ has hex b)

read_same :
    (a b : Blobs) (is_head : Bool) (hex : String) (unknown there : Response)
    (full : List ℕ → Response)
    → Agree a b hex
    → read_blob a is_head hex unknown there full ≡ read_blob b is_head hex unknown there full
unfolding read_blob
read_same a b true hex unknown there full agree = ap (λ t. guard t unknown >> ok there) agree.1
read_same a b false hex unknown there full agree =
    ap (λ o. or_return o unknown >>= (λ bytes. ok (full bytes))) agree.0

-- Whatever two blob stores hold besides: if they agree about the digests that a repository is recorded for,
-- as blob or as manifest, then every pull from that repository gives the same response from both, HEAD
-- and GET, of a blob and of a manifest by tag or by digest. So nothing can be learnt about a content
-- of another repository, not even that it exists.
pub pull_isolated :
    (media_type : List ℕ → Option String) (trust : TrustStore) (a b : Blobs) (name : String)
    → ((hex : String) (kind : MembershipKind)
        → has_registry_membership trust name hex kind ≡ true
        → Agree a b hex)
    → (is_head : Bool) (reference : String)
    → (get_blob trust a is_head name reference ≡ get_blob trust b is_head name reference)
      × (get_manifest media_type trust a is_head name reference
          ≡ get_manifest media_type trust b is_head name reference)
unfolding get_blob get_manifest
pull_isolated media_type trust a b name agree is_head reference = (
  ap returned (
      guard_same (is_repo_name name) (name_invalid name) _ _ (λ valid.
        bind_same (or_return (sha256_part reference) (blob_unknown reference)) _ _ (λ hex.
          guard_same (is_digest hex) (blob_unknown reference) _ _ (λ digest.
            guard_same (has_registry_membership trust name hex blob) (blob_unknown reference) _ _
              (λ member.
                read_same a b is_head hex (blob_unknown reference) (blob_head_response hex)
                  (λ bytes. blob_response bytes hex) (agree hex blob member)))))),
  ap returned (
      guard_same (is_repo_name name) (name_invalid name) _ _ (λ valid.
        bind_same (manifest_digest trust name reference) _ _ (λ hex.
          guard_same (has_registry_membership trust name hex manifest) (manifest_unknown reference)
            _ _
            (λ member.
              read_same a b is_head hex (manifest_unknown reference) (manifest_head_response hex)
                (λ bytes. manifest_response media_type bytes hex) (agree hex manifest member))))),
)
