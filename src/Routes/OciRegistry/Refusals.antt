-- ===== src/Routes/OciRegistry/Refusals.antt =====
-- src/routes/oci-registry.ts: a finalize whose digest is refused.
use cloister.Prelude.{ℕ, ◌≡◌, refl, ap, ◌∙◌, String, none, some, ◌++◌}
use cloister.Prelude.Keys.{==_refl, string_eq, nat_eq}
use cloister.Prelude.Results.{ok}
use cloister.Table.{find}
use cloister.Table.Laws.{find-upsert}
use cloister.Routes.OciRegistry.Types.{Platform, Registry, Call, UploadSession}
use cloister.Routes.OciRegistry.Pull.{or_return}
use cloister.Routes.OciRegistry.Push.{
  upload_key, digest_mismatch, if_checked, with_chunk, flatten, verify_claimed_digest,
}
use cloister.Routes.OciRegistry.Uploads.{
  with_upload, finalize_checks, finalize_session, store_upload, finalize_upload,
}
use cloister.Routes.OciRegistry.Sessions.{
  AllSound, session_of-IsSound, session_of-find, finalize_checks-ok,
}
use cloister.Routes.OciRegistry.RoundTrip.{
  with_chunk-uuid, with_chunk-flatten, session_bytes-with_chunk, find-uuid,
}

module _ (platform : Platform) (max_blob_bytes : ℕ) where
  -- With sound sessions: a finalize that passes the checks and whose claim is no digest of the session's
  -- bytes followed by the request's body is refused and stores nothing. The session stays open, and its
  -- bytes are now the old ones followed by that body: a further finalize appends its own body to those.
  pub finalize_upload-mismatch :
      (this : Registry) (call : Call) (name uuid claimed : String) (session : UploadSession)
      → AllSound platform max_blob_bytes this
      → finalize_checks platform max_blob_bytes this call name uuid ≡ ok (claimed, session)
      → verify_claimed_digest platform (flatten session.chunks ++ call.body) claimed ≡ none
      → (grown : UploadSession) × (after : Registry) × (finalize_upload platform max_blob_bytes this
            call name uuid
          ≡ (after, ok (digest_mismatch claimed)))
        × (after.blobs ≡ this.blobs)
        × (after.trust ≡ this.trust)
        × (find upload_key uuid after.uploads ≡ some grown)
        × (flatten grown.chunks ≡ flatten session.chunks ++ call.body)
  unfolding finalize_upload
  finalize_upload-mismatch this call name uuid claimed session sound checked refused =
      let grown = with_chunk call.body session in
      let after = with_upload platform max_blob_bytes this grown in
      let (looked, fits) =
        finalize_checks-ok platform max_blob_bytes this call name uuid claimed session checked in
      let same =
        session_bytes-with_chunk platform max_blob_bytes call.body session
          (session_of-IsSound platform max_blob_bytes this name uuid session sound looked) fits in
      let found = (session_of-find platform max_blob_bytes this name uuid session looked).0 in
      let kept : grown.uuid ≡ uuid =
        with_chunk-uuid platform max_blob_bytes call.body session
        ∙ find-uuid platform max_blob_bytes uuid this.uploads session found in
      (
        grown,
        after,
        ap (λ m. if_checked this m (finalize_session platform max_blob_bytes this call name))
              checked
            ∙ ap
                (λ m.
                  if_checked after m (store_upload platform max_blob_bytes after call name grown))
                (ap (λ o. or_return o (digest_mismatch claimed))
                  (ap (λ b. verify_claimed_digest platform b claimed) same ∙ refused)),
        refl,
        refl,
        find-upsert upload_key grown uuid this.uploads ∙ rw (kept, ==_refl uuid) refl,
        with_chunk-flatten platform max_blob_bytes call.body session,
      )
