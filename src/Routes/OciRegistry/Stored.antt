-- ===== src/Routes/OciRegistry/Stored.antt =====
-- src/routes/oci-registry.ts: the state after a write that is accepted.
use cloister.Prelude.{
  ℕ, ◌≡◌, refl, sym, ap, subst, ◌∙◌, String, true, false, Option, none, some, List, ◌||◌, arith,
  Bool-cases, inl, inr,
}
use cloister.Prelude.Keys.{◌==◌, ==_refl, ==_iff, string_eq, pair_eq}
use cloister.Prelude.Results.{Result, ok, err}
use cloister.Prelude.Chars.{cut_at}
use cloister.Prelude.Lines.{cut_at-join}
use cloister.Storage.RegistryMembership.{MembershipKind, MembershipKey}
use cloister.Storage.RegistryMembership.Isolation.{has-record}
use cloister.Storage.Workerd.{Blobs, blob_chunk_size, get, has, storage_key, write_under, put}
use cloister.Storage.Workerd.Refs.{is_digest}
use cloister.Storage.Workerd.Contents.{IsHeld, stores, put-IsHeld, storage_key-content, read_back}
use cloister.TrustStore.{TrustStore}
use cloister.TrustStore.Rpc.{record_registry_membership, has_registry_membership}
use cloister.Routes.OciRegistry.Names.{
  after_sha256, digest_or_none, sha256_part, sha256_ref, parse_sha256_param,
}
use cloister.Routes.OciRegistry.Types.{Platform, Registry, Call}
use cloister.Routes.OciRegistry.Push.{
  matching_digest, verify_claimed_digest, record_after_put, store_content,
}
use cloister.Routes.OciRegistry.Contents.{Represents, IsSeparate}

-- A digest reference names its digest.
pub sha256_part-sha256_ref : (hex : String) → sha256_part (sha256_ref hex) ≡ some hex
unfolding sha256_part
sha256_part-sha256_ref hex =
    ap after_sha256
      (cut_at-join b':' _ "sha256" hex refl (refl, (refl, (refl, (refl, (refl, (refl, tt)))))))

no_part : (hex : String) → sha256_part "" ≡ some hex → ⊥
unfolding sha256_part cut_at
no_part hex h = cc

pub sha256_ref-nonempty : (hex : String) → (sha256_ref hex == "") ≡ false
sha256_ref-nonempty hex = elim (Bool-cases (sha256_ref hex == "")) [
  | inl same ↦ absurd (
      no_part hex
        (ap sha256_part (sym ((==_iff (sha256_ref hex) "").0 same)) ∙ sha256_part-sha256_ref hex))
  | inr other ↦ other
]

module _ (platform : Platform) where
  matching_digest-some :
      (bytes : List ℕ) (part : Option String) (key : String)
      → matching_digest platform bytes (digest_or_none part) ≡ some key
      → (part ≡ some key)
        × (is_digest key ≡ true)
        × (storage_key platform.sha256 platform.blake3 bytes (some key) ≡ ok key)
  unfolding storage_key
  matching_digest-some bytes none key h = cc
  matching_digest-some bytes (some hex) key h = ground (
    arith,
    h,
    ==_iff (platform.sha256 bytes) key,
    ==_iff (platform.blake3 bytes) key,
    ==_iff (platform.sha256 bytes) hex,
    ==_iff (platform.blake3 bytes) hex,
  )

  -- A claim that is verified names the key, which is a digest of the bytes.
  pub verify_claimed_digest-some :
      (bytes : List ℕ) (claimed key : String)
      → verify_claimed_digest platform bytes claimed ≡ some key
      → (sha256_part claimed ≡ some key)
        × (is_digest key ≡ true)
        × (storage_key platform.sha256 platform.blake3 bytes (some key) ≡ ok key)
  unfolding verify_claimed_digest parse_sha256_param
  verify_claimed_digest-some bytes claimed key h =
      matching_digest-some bytes (sha256_part claimed) key h

  -- Bytes that are accepted under a key are read back under it.
  get-put :
      (content : String → List ℕ) (this : Blobs) (key : String) (bytes : List ℕ)
      → storage_key platform.sha256 platform.blake3 bytes (some key) ≡ ok key
      → IsSeparate platform content bytes
      → Represents content this
      → (get key (put platform.sha256 platform.blake3 blob_chunk_size bytes (some key) this).0
          ≡ some bytes)
        × (has key (put platform.sha256 platform.blake3 blob_chunk_size bytes (some key) this).0
            ≡ true)
  get-put content this key bytes accepted separate held =
      let (seen, h) = held key in
      let sha256 = platform.sha256 in
      let blake3 = platform.blake3 in
      let after = (put sha256 blake3 blob_chunk_size bytes (some key) this).0 in
      let now : stores sha256 blake3 blob_chunk_size key
            (storage_key sha256 blake3 bytes (some key))
          ≡ true =
        rw accepted (==_refl key) in
      let (got, there) =
        read_back sha256 blake3 blob_chunk_size content key true after (omega arith) (
          subst (λ b. IsHeld blob_chunk_size (b || seen) key (content key) after) now
            (put-IsHeld sha256 blake3 blob_chunk_size content key seen bytes (some key) this
              separate h)) in
      (
        got
            ∙ ap some (
                storage_key-content sha256 blake3 blob_chunk_size content bytes (some key) key
                  separate accepted),
        there,
      )

  has-record_after_put :
      (this : Registry) (call : Call) (name key : String) (kind : MembershipKind)
      (stored : Blobs × Result String String)
      → stored.1 ≡ ok key
      → (trust : TrustStore) × (record_after_put platform this call name key kind stored
          ≡ (record this { blobs = stored.0; trust = trust }, ok tt))
        × (has_registry_membership trust name key kind ≡ true)
  unfolding record_registry_membership has_registry_membership
  has-record_after_put this call name key kind (blobs, err message) h = cc
  has-record_after_put this call name key kind (blobs, ok d) h = (
    record_registry_membership this.trust name key kind call.now_ms none,
    refl,
    has-record this.trust.registry_blob_membership name key kind call.now_ms none name key kind
        ∙ rw (==_refl {K = MembershipKey} (name, (key, kind))) refl,
  )

  accepted_put :
      (this : Blobs) (key : String) (bytes : List ℕ)
      → storage_key platform.sha256 platform.blake3 bytes (some key) ≡ ok key
      → (put platform.sha256 platform.blake3 blob_chunk_size bytes (some key) this).1 ≡ ok key
  unfolding put
  accepted_put this key bytes accepted =
      ap (λ made. (write_under platform.sha256 platform.blake3 blob_chunk_size bytes this made).1)
        accepted

  -- The state after a write that is accepted: the bytes are read back, and the repository has them.
  abbrev pub IsStored : List ℕ → String → String → MembershipKind → Registry → Type 0
  IsStored bytes name key kind this =
      ((get key this.blobs ≡ some bytes) × (has key this.blobs ≡ true))
      × (has_registry_membership this.trust name key kind ≡ true)

  pub store_content-IsStored :
      (content : String → List ℕ) (this : Registry) (call : Call) (name key : String)
      (kind : MembershipKind) (bytes : List ℕ)
      → storage_key platform.sha256 platform.blake3 bytes (some key) ≡ ok key
      → IsSeparate platform content bytes
      → Represents content this.blobs
      → (after : Registry) × (store_content platform this call name key kind bytes ≡ (after, ok tt))
        × IsStored bytes name key kind after
        × (after.uploads ≡ this.uploads)
  unfolding store_content
  store_content-IsStored content this call name key kind bytes accepted separate held =
      let stored =
        put platform.sha256 platform.blake3 blob_chunk_size bytes (some key) this.blobs in
      let (trust, done, member) =
        has-record_after_put this call name key kind stored
          (accepted_put this.blobs key bytes accepted) in
      (
        record this { blobs = stored.0; trust = trust },
        done,
        (get-put content this.blobs key bytes accepted separate held, member),
        refl,
      )
