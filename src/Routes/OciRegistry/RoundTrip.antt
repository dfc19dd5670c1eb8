-- ===== src/Routes/OciRegistry/RoundTrip.antt =====
-- src/routes/oci-registry.ts: what is pushed is pulled back.
use mathlib.Core.List.{append-nil}
use cloister.Prelude.{
  [], ◌∷◌, ℕ, ◌+◌, ◌≤◌, ◌≡◌, refl, sym, ap, subst, ◌∙◌, String, Bool, true, false, none, some, List,
  ◌++◌, arith, Bool-cases, inl, inr, if◌then◌else◌, length,
}
use cloister.Prelude.Keys.{◌==◌, ==_refl, ==_iff, string_eq, nat_eq}
use cloister.Prelude.Results.{ok}
use cloister.Table.{find, delete_where}
use cloister.Table.Laws.{find-delete_where}
use cloister.Storage.RegistryMembership.{blob}
use cloister.Storage.Workerd.{storage_key}
use cloister.Storage.Workerd.Refs.{is_digest}
use cloister.Routes.OciRegistry.Names.{is_repo_name, sha256_ref}
use cloister.Routes.OciRegistry.Responses.{blob_response, blob_head_response, blob_created_response}
use cloister.Routes.OciRegistry.Types.{Platform, Registry, Call, UploadSession}
use cloister.Routes.OciRegistry.Pull.{get_blob, read_blob, or_return}
use cloister.Routes.OciRegistry.Push.{
  upload_key, digest_mismatch, upon, if_checked, with_chunk, flatten, verify_claimed_digest,
  store_content,
}
use cloister.Routes.OciRegistry.Uploads.{
  session_bytes, with_upload, finalize_checks, finalize_session, drop_session, store_upload,
  verify_upload, finalize_upload,
}
use cloister.Routes.OciRegistry.Sessions.{
  IsSound, AllSound, flatten-snoc, with_chunk-IsSound, concat_chunks-flatten, session_of-IsSound,
  session_of-find, finalize_checks-ok,
}
use cloister.Routes.OciRegistry.Contents.{Represents, IsSeparate}
use cloister.Routes.OciRegistry.Stored.{
  sha256_part-sha256_ref, verify_claimed_digest-some, IsStored, store_content-IsStored,
}

module _ (platform : Platform) where
  pull_blob :
      (this : Registry) (name key : String) (bytes : List ℕ) (is_head : Bool)
      → is_repo_name name ≡ true
      → is_digest key ≡ true
      → IsStored platform bytes name key blob this
      → get_blob this.trust this.blobs is_head name (sha256_ref key)
        ≡ (if is_head then blob_head_response key else blob_response bytes key)
  unfolding get_blob read_blob
  pull_blob this name key bytes true valid digest ((got, there), member) =
      rw (valid, sha256_part-sha256_ref key, digest, member, there) refl
  pull_blob this name key bytes false valid digest ((got, there), member) =
      rw (valid, sha256_part-sha256_ref key, digest, member, got) refl

  module _ (max_blob_bytes : ℕ) where
    pub with_chunk-uuid :
        (bytes : List ℕ) (session : UploadSession) → (with_chunk bytes session).uuid ≡ session.uuid
    with_chunk-uuid bytes session = elim (Bool-cases (length bytes == 0)) [
      | inl empty ↦ rw empty refl
      | inr full ↦ rw full refl
    ]

    pub with_chunk-flatten :
        (bytes : List ℕ) (session : UploadSession)
        → flatten (with_chunk bytes session).chunks ≡ flatten session.chunks ++ bytes
    unfolding flatten
    with_chunk-flatten [] session = sym (append-nil (flatten session.chunks))
    with_chunk-flatten (b ∷ bytes) session = elim (Bool-cases (length (b ∷ bytes) == 0)) [
      | inl empty ↦ absurd (ground (arith, empty))
      | inr full ↦ rw full (flatten-snoc session.chunks (b ∷ bytes))
    ]

    -- The bytes that the finalize hashes.
    pub session_bytes-with_chunk :
        (bytes : List ℕ) (session : UploadSession)
        → IsSound max_blob_bytes session
        → session.size + length bytes ≤ max_blob_bytes
        → session_bytes platform max_blob_bytes (with_chunk bytes session)
          ≡ flatten session.chunks ++ bytes
    session_bytes-with_chunk bytes session sound fits =
        concat_chunks-flatten (with_chunk bytes session).chunks (with_chunk bytes session).size
          (with_chunk-IsSound max_blob_bytes bytes session sound fits).0
        ∙ with_chunk-flatten bytes session

    pub find-uuid :
        (uuid : String) (uploads : List UploadSession) (session : UploadSession)
        → find upload_key uuid uploads ≡ some session
        → session.uuid ≡ uuid
    unfolding find
    find-uuid uuid [] session found = cc
    find-uuid uuid (s ∷ uploads) session found = elim (Bool-cases (s.uuid == uuid)) [
      | inl same ↦
          let e : some s ≡ some session = rw same at found in
          let e' : s ≡ session = cc in ap (λ u. u.uuid) (sym e') ∙ (==_iff s.uuid uuid).0 same
      | inr other ↦ find-uuid uuid uploads session (rw other at found)
    ]

    -- The store that a verified upload ends in.
    store_upload-IsStored :
        (content : String → List ℕ) (this : Registry) (call : Call) (name key : String)
        (session : UploadSession) (bytes : List ℕ)
        → session_bytes platform max_blob_bytes session ≡ bytes
        → storage_key platform.sha256 platform.blake3 bytes (some key) ≡ ok key
        → IsSeparate platform content bytes
        → Represents content this.blobs
        → (after : Registry) × (store_upload platform max_blob_bytes this call name session key
            ≡ drop_session platform max_blob_bytes session.uuid name key after tt)
          × IsStored platform bytes name key blob after
    store_upload-IsStored content this call name key session bytes same accepted separate held =
        let (after, done, kept, uploads) =
          store_content-IsStored platform content this call name key blob bytes accepted separate
            held in
        (
          after,
          ap
                (λ b.
                  upon (store_content platform this call name key blob b)
                    (drop_session platform max_blob_bytes session.uuid name key))
                same
              ∙ ap (λ r. upon r (drop_session platform max_blob_bytes session.uuid name key)) done,
          kept,
        )

    verify_upload-eq :
        (this : Registry) (call : Call) (name claimed key : String) (session : UploadSession)
        (bytes : List ℕ)
        → session_bytes platform max_blob_bytes session ≡ bytes
        → verify_claimed_digest platform bytes claimed ≡ some key
        → verify_upload platform max_blob_bytes this call name claimed session
          ≡ store_upload platform max_blob_bytes this call name session key
    verify_upload-eq this call name claimed key session bytes same verified =
        ap (λ m. if_checked this m (store_upload platform max_blob_bytes this call name session))
          (ap (λ o. or_return o (digest_mismatch claimed))
            (ap (λ b. verify_claimed_digest platform b claimed) same ∙ verified))

    -- Every session is sound, each key of the blob store holds just the content of that digest or nothing,
    -- and no other content has a digest of the session's bytes followed by the request's body. Then a
    -- finalize that passes the checks, of a repository's valid name, and whose claim is a digest of those
    -- bytes answers 201 and ends the session, and the blob can be pulled from that repository under that
    -- digest, with HEAD and with GET, which gives exactly those bytes.
    pub finalize_upload-get_blob :
        (content : String → List ℕ) (this : Registry) (call : Call) (name uuid claimed key : String)
        (session : UploadSession)
        → is_repo_name name ≡ true
        → AllSound platform max_blob_bytes this
        → Represents content this.blobs
        → IsSeparate platform content (flatten session.chunks ++ call.body)
        → finalize_checks platform max_blob_bytes this call name uuid ≡ ok (claimed, session)
        → verify_claimed_digest platform (flatten session.chunks ++ call.body) claimed ≡ some key
        → (after : Registry) × (finalize_upload platform max_blob_bytes this call name uuid
            ≡ (after, ok (blob_created_response name key)))
          × (find upload_key uuid after.uploads ≡ none)
          × ((is_head : Bool)
              → get_blob after.trust after.blobs is_head name (sha256_ref key) ≡ (
                  if is_head
                  then blob_head_response key
                  else blob_response (flatten session.chunks ++ call.body) key))
    unfolding finalize_upload
    finalize_upload-get_blob content this call name uuid claimed key session valid sound held
          separate checked verified =
        let bytes = flatten session.chunks ++ call.body in
        let grown = with_chunk call.body session in
        let this' = with_upload platform max_blob_bytes this grown in
        let (looked, fits) =
          finalize_checks-ok platform max_blob_bytes this call name uuid claimed session checked in
        let same =
          session_bytes-with_chunk call.body session
            (session_of-IsSound platform max_blob_bytes this name uuid session sound looked) fits in
        let (part, digest, accepted) =
          verify_claimed_digest-some platform bytes claimed key verified in
        let (after, done, kept) =
          store_upload-IsStored content this' call name key grown bytes same accepted separate
            held in
        let ended : grown.uuid ≡ uuid =
          with_chunk-uuid call.body session
          ∙ find-uuid uuid this.uploads session
              (session_of-find platform max_blob_bytes this name uuid session looked).0 in
        (
          (drop_session platform max_blob_bytes grown.uuid name key after tt).0,
          ap (λ m. if_checked this m (finalize_session platform max_blob_bytes this call name))
                checked
              ∙ verify_upload-eq this' call name claimed key grown bytes same verified
              ∙ done,
          subst
              (λ u.
                find upload_key uuid (delete_where (λ s. upload_key s == u) after.uploads) ≡ none)
              (sym ended)
              (find-delete_where upload_key uuid uuid after.uploads ∙ rw (==_refl uuid) refl),
          λ is_head. pull_blob after name key bytes is_head valid digest kept,
        )
