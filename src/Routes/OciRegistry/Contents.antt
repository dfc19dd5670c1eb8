-- ===== src/Routes/OciRegistry/Contents.antt =====
-- src/routes/oci-registry.ts: the blob store behind the route stays a map from digests to contents.
use cloister.Prelude.{
  ℕ, ◌≡◌, ◌||◌, refl, sym, subst, String, Bool, false, Option, none, some, List, All,
}
use cloister.Prelude.Keys.{string_eq}
use cloister.Table.{find, select}
use cloister.Storage.RegistryMembership.{MembershipKind, blob, manifest}
use cloister.Storage.Workerd.{Blobs, no_blobs, blob_chunk_size, storage_key}
use cloister.Storage.Workerd.Contents.{IsHeld, Separates, stores, put-IsHeld}
use cloister.Routes.LeaseGate.{Env}
use cloister.Routes.LeaseMiddleware.Types.{Runtime}
use cloister.Routes.OciRegistry.Names.{sha256_part}
use cloister.Routes.OciRegistry.Types.{Platform, UploadSession, Registry, Call}
use cloister.Routes.OciRegistry.Push.{with_chunk, gate_write, store_content}
use cloister.Routes.OciRegistry.Uploads.{
  session_bytes, drop_session, store_upload, with_upload, claimed_key, finalize_checks,
  finalize_session, finalize_upload, answer_created, monolithic_checks, store_monolithic,
  upload_monolithic, open_checks, open_session, patch_checks, append_chunk,
}
use cloister.Routes.OciRegistry.ManifestPut.{
  manifest_checks, tagged, answer_manifest, store_manifest, put_manifest,
}
use cloister.Routes.OciRegistry.Steps.{
  upon-keeps, if_checked-keeps, blobs-store_content, gate_write-uploads,
}
use cloister.Routes.OciRegistry.Sessions.{find-All, session_of-find, finalize_checks-ok}
use cloister.Routes.OciRegistry.Invariants.{handle-keeps}
use cloister.Routes.OciRegistry.{handle}

-- Under each key the store holds just the content of the key, or nothing.
abbrev pub Represents : (String → List ℕ) → Blobs → Type 0
Represents content blobs =
    (k : String) → (seen : Bool) × IsHeld blob_chunk_size seen k (content k) blobs

-- `content` gives these bytes back from either of their digests.
abbrev pub IsSeparate : Platform → (String → List ℕ) → List ℕ → Type 0
IsSeparate platform content bytes =
    Separates platform.sha256 platform.blake3 blob_chunk_size content (bytes, none)

pub empty-Represents : (content : String → List ℕ) → Represents content no_blobs
unfolding find select
empty-Represents content k = (false, (refl, refl))

module _ (platform : Platform) (max_blob_bytes : ℕ) (content : String → List ℕ) where
  -- The contents that a request may store: its body, and each open session with the body at its end.
  abbrev pub AllSeparate : Call → List UploadSession → Type 0
  AllSeparate call uploads =
      IsSeparate platform content call.body
      × All
          (λ u.
            IsSeparate platform content
              (session_bytes platform max_blob_bytes (with_chunk call.body u)))
          uploads

  pub store_content-Represents :
      (this : Registry) (call : Call) (name key : String) (kind : MembershipKind) (bytes : List ℕ)
      → IsSeparate platform content bytes
      → Represents content this.blobs
      → Represents content (store_content platform this call name key kind bytes).0.blobs
  store_content-Represents this call name key kind bytes separate held k =
      let (seen, h) = held k in
      let made = storage_key platform.sha256 platform.blake3 bytes (some key) in
      (
        stores platform.sha256 platform.blake3 blob_chunk_size k made || seen,
        subst (IsHeld blob_chunk_size _ k (content k))
            (sym (blobs-store_content platform this call name key kind bytes))
            (put-IsHeld platform.sha256 platform.blake3 blob_chunk_size content k seen bytes
              (some key) this.blobs separate h),
      )

  abbrev Kept : Registry → Type 0
  Kept this = Represents content this.blobs

  open_session-Represents :
      (this : Registry) (call : Call) (name : String)
      → Kept this
      → Kept (open_session platform max_blob_bytes this call name).0
  unfolding open_session
  open_session-Represents this call name held =
      if_checked-keeps Kept this (open_checks platform max_blob_bytes call) _ held
        (λ done checked. held)

  append_chunk-Represents :
      (this : Registry) (call : Call) (name uuid : String)
      → Kept this
      → Kept (append_chunk platform max_blob_bytes this call name uuid).0
  unfolding append_chunk
  append_chunk-Represents this call name uuid held =
      if_checked-keeps Kept this (patch_checks platform max_blob_bytes this call name uuid) _ held
        (λ session checked. held)

  upload_monolithic-Represents :
      (this : Registry) (call : Call) (name claimed : String)
      → IsSeparate platform content call.body
      → Kept this
      → Kept (upload_monolithic platform max_blob_bytes this call name claimed).0
  unfolding upload_monolithic
  upload_monolithic-Represents this call name claimed separate held =
      if_checked-keeps Kept this (monolithic_checks platform max_blob_bytes call claimed)
        (store_monolithic platform max_blob_bytes this call name) held
        (λ key checked.
          upon-keeps Kept (store_content platform this call name key blob call.body)
            (answer_created platform max_blob_bytes name key)
            (store_content-Represents this call name key blob call.body separate held)
            (λ this' done ran kept. kept))

  finalize_session-Represents :
      (this : Registry) (call : Call) (name claimed : String) (session : UploadSession)
      → IsSeparate platform content
          (session_bytes platform max_blob_bytes (with_chunk call.body session))
      → Kept this
      → Kept (finalize_session platform max_blob_bytes this call name (claimed, session)).0
  finalize_session-Represents this call name claimed session separate held =
      let grown = with_chunk call.body session in
      let this' = with_upload platform max_blob_bytes this grown in
      if_checked-keeps Kept this' (claimed_key platform max_blob_bytes claimed grown)
        (store_upload platform max_blob_bytes this' call name grown) held
        (λ key matched.
          upon-keeps Kept
            (store_content platform this' call name key blob
              (session_bytes platform max_blob_bytes grown))
            (drop_session platform max_blob_bytes grown.uuid name key)
            (store_content-Represents this' call name key blob
              (session_bytes platform max_blob_bytes grown) separate held)
            (λ this'' done ran kept. kept))

  finalize_upload-Represents :
      (this : Registry) (call : Call) (name uuid : String)
      → AllSeparate call this.uploads
      → Kept this
      → Kept (finalize_upload platform max_blob_bytes this call name uuid).0
  unfolding finalize_upload
  finalize_upload-Represents this call name uuid separate held =
      if_checked-keeps Kept this (finalize_checks platform max_blob_bytes this call name uuid)
        (finalize_session platform max_blob_bytes this call name) held
        (λ (claimed, session) checked.
          let (looked, fits) =
            finalize_checks-ok platform max_blob_bytes this call name uuid claimed session
              checked in
          finalize_session-Represents this call name claimed session
            (find-All
              (λ u.
                IsSeparate platform content
                  (session_bytes platform max_blob_bytes (with_chunk call.body u)))
              uuid this.uploads session separate.1
              (session_of-find platform max_blob_bytes this name uuid session looked).0)
            held)

  tagged-blobs :
      (this : Registry) (call : Call) (name reference key : String) (hex : Option String)
      → (tagged platform max_blob_bytes this call name reference key hex).blobs ≡ this.blobs
  tagged-blobs this call name reference key none = refl
  tagged-blobs this call name reference key (some hex) = refl

  put_manifest-Represents :
      (this : Registry) (call : Call) (name reference : String)
      → IsSeparate platform content call.body
      → Kept this
      → Kept (put_manifest platform max_blob_bytes this call name reference).0
  unfolding put_manifest
  put_manifest-Represents this call name reference separate held =
      if_checked-keeps Kept this (manifest_checks platform max_blob_bytes call reference)
        (store_manifest platform max_blob_bytes this call name reference) held
        (λ key checked.
          upon-keeps Kept (store_content platform this call name key manifest call.body)
            (answer_manifest platform max_blob_bytes call name reference key)
            (store_content-Represents this call name key manifest call.body separate held)
            (λ this' done ran kept.
              subst (Represents content)
                (sym (tagged-blobs this' call name reference key (sha256_part reference))) kept))

  abbrev Before : Call → Registry → Type 0
  Before call this = Represents content this.blobs × AllSeparate call this.uploads

  gate-Before :
      (rt : Runtime) (env : Env) (this : Registry) (call : Call) (name : String)
      → Before call this
      → Before call (gate_write platform rt env this call name).0
  gate-Before rt env this call name (held, separate) =
      let (uploads, blobs) = gate_write-uploads platform rt env this call name in
      (subst (Represents content) (sym blobs) held, subst (AllSeparate call) (sym uploads) separate)

  -- `content` gives a content back from a digest of it. From a blob store in which each key holds just the
  -- content of that digest or nothing, and so from an empty one, and where `content` is right about the
  -- request's body and about each open session with the body at its end: the store is of that form
  -- after the request too, to any endpoint and whatever its outcome.
  pub handle-Represents :
      (rt : Runtime) (env : Env) (this : Registry) (call : Call)
      → Represents content this.blobs
      → AllSeparate call this.uploads
      → Represents content (handle rt platform env max_blob_bytes this call).0.blobs
  handle-Represents rt env this call held separate =
      handle-keeps rt platform env max_blob_bytes (Before call) Kept this call (λ this p. p.0)
        (λ this name p. gate-Before rt env this call name p)
        (λ this name p. open_session-Represents this call name p.0)
        (λ this name claimed p. upload_monolithic-Represents this call name claimed p.1.0 p.0)
        (λ this name uuid p. append_chunk-Represents this call name uuid p.0)
        (λ this name uuid p. finalize_upload-Represents this call name uuid p.1 p.0)
        (λ this name reference p. put_manifest-Represents this call name reference p.1.0 p.0)
        (held, separate)
