-- ===== src/Routes/OciRegistry/Uploads.antt =====
-- src/routes/oci-registry.ts: the writes of blobs. One request is handled at a time.
use cloister.Prelude.{ℕ, ◌+◌, String, List, [], length}
use cloister.Prelude.Keys.{◌==◌, nat_eq, string_eq}
use cloister.Prelude.Results.{Result, ok, ◌>>=◌, ◌>>◌, guard}
use cloister.Table.{find, upsert, delete_where}
use cloister.Storage.RegistryMembership.{blob}
use cloister.Routes.OciRegistry.Names.{parse_sha256_param}
use cloister.Routes.OciRegistry.Responses.{
  Response, oci_error, upload_accepted_response, blob_created_response,
}
use cloister.Routes.OciRegistry.Types.{Platform, UploadSession, Registry, Call, Outcome}
use cloister.Routes.OciRegistry.Pull.{or_return}
use cloister.Routes.OciRegistry.Push.{
  upload_key, upload_unknown, digest_malformed, digest_mismatch, upon, if_checked, with_chunk,
  concat_chunks, check_actual_size, check_content_length_header, verify_claimed_digest,
  store_content,
}

module _ (platform : Platform) (max_blob_bytes : ℕ) where
  -- The monolithic upload.
  abbrev pub monolithic_checks : Call → String → Result Response String
  monolithic_checks call claimed = do
    hex ← or_return (parse_sha256_param claimed) (digest_malformed claimed)
    check_content_length_header max_blob_bytes call.content_length
    check_actual_size max_blob_bytes (length call.body)
    or_return (verify_claimed_digest platform call.body claimed) (digest_mismatch claimed)

  abbrev pub answer_created : String → String → Registry → Unit {0} → Outcome
  answer_created name key this done = (this, ok (blob_created_response name key))

  abbrev pub store_monolithic : Registry → Call → String → String → Outcome
  store_monolithic this call name key =
      upon (store_content platform this call name key blob call.body) (answer_created name key)

  unfoldable pub upload_monolithic : Registry → Call → String → String → Outcome
  upload_monolithic this call name claimed =
      if_checked this (monolithic_checks call claimed) (store_monolithic this call name)

  abbrev pub open_checks : Call → Result Response (Unit {0})
  open_checks call = do
    check_content_length_header max_blob_bytes call.content_length
    check_actual_size max_blob_bytes (length call.body)

  unfoldable pub open_session : Registry → Call → String → Outcome
  open_session this call name =
      let session : UploadSession =
        with_chunk call.body
          (record { uuid = call.new_upload_id; name = name; chunks = []; size = 0 }) in
      if_checked this (open_checks call) (λ done. (
        record this { uploads = upsert upload_key session this.uploads },
        ok (upload_accepted_response name call.new_upload_id (length call.body)),
      ))

  -- The session of the URL, where it was opened for the repository of the URL.
  abbrev pub session_of : Registry → String → String → Result Response UploadSession
  session_of this name uuid = do
    session ← or_return (find upload_key uuid this.uploads) (upload_unknown uuid)
    guard (session.name == name) (upload_unknown uuid)
    ok session

  abbrev pub patch_checks : Registry → Call → String → String → Result Response UploadSession
  patch_checks this call name uuid = do
    session ← session_of this name uuid
    check_content_length_header max_blob_bytes call.content_length
    check_actual_size max_blob_bytes (session.size + length call.body)
    ok session

  unfoldable pub append_chunk : Registry → Call → String → String → Outcome
  append_chunk this call name uuid = if_checked this (patch_checks this call name uuid) (λ session.
      let grown = with_chunk call.body session in
      (
        record this { uploads = upsert upload_key grown this.uploads },
        ok (upload_accepted_response name uuid grown.size),
      ))

  -- The digest that is claimed, and the session.
  abbrev pub finalize_checks :
      Registry → Call → String → String → Result Response (String × UploadSession)
  finalize_checks this call name uuid = do
    session ← session_of this name uuid
    claimed ←
        or_return (platform.patterns.digest_param call.url)
          (oci_error 400 "DIGEST_INVALID" "finalize PUT requires ?digest=sha256:<hex>")
    hex ← or_return (parse_sha256_param claimed) (digest_malformed claimed)
    check_content_length_header max_blob_bytes call.content_length
    check_actual_size max_blob_bytes (session.size + length call.body)
    ok (claimed, session)

  abbrev pub session_bytes : UploadSession → List ℕ
  session_bytes session = concat_chunks session.chunks session.size

  -- `uploads.delete(uuid)` and the answer.
  abbrev pub drop_session : String → String → String → Registry → Unit {0} → Outcome
  drop_session uuid name key this done = (
    record this { uploads = delete_where (λ u. upload_key u == uuid) this.uploads },
    ok (blob_created_response name key),
  )

  abbrev pub store_upload : Registry → Call → String → UploadSession → String → Outcome
  store_upload this call name session key =
      upon (store_content platform this call name key blob (session_bytes session))
        (drop_session session.uuid name key)

  abbrev pub claimed_key : String → UploadSession → Result Response String
  claimed_key claimed session =
      or_return (verify_claimed_digest platform (session_bytes session) claimed)
        (digest_mismatch claimed)

  -- A digest that does not match leaves the session, with the last chunk.
  abbrev pub verify_upload : Registry → Call → String → String → UploadSession → Outcome
  verify_upload this call name claimed session =
      if_checked this (claimed_key claimed session) (store_upload this call name session)

  abbrev pub with_upload : Registry → UploadSession → Registry
  with_upload this session = record this { uploads = upsert upload_key session this.uploads }

  abbrev pub finalize_session : Registry → Call → String → String × UploadSession → Outcome
  finalize_session this call name (claimed, session) =
      let grown = with_chunk call.body session in
      verify_upload (with_upload this grown) call name claimed grown

  unfoldable pub finalize_upload : Registry → Call → String → String → Outcome
  finalize_upload this call name uuid =
      if_checked this (finalize_checks this call name uuid) (finalize_session this call name)
