-- ===== src/Routes/OciRegistry/Bounds.antt =====
-- src/routes/oci-registry.ts: the open sessions after any sequence of requests.
use cloister.Prelude.{ℕ, ◌≡◌, refl, String, Option, none, some, List, [], arith, All, length}
use cloister.Prelude.Keys.{◌==◌, nat_eq, string_eq}
use cloister.Prelude.Results.{ok, then-ok}
use cloister.Table.Laws.{delete_where-All}
use cloister.Storage.RegistryMembership.{MembershipKind, blob, manifest}
use cloister.Routes.LeaseGate.{Env}
use cloister.Routes.LeaseMiddleware.Types.{Runtime}
use cloister.Routes.OciRegistry.Names.{sha256_part}
use cloister.Routes.OciRegistry.Types.{Platform, UploadSession, Registry, Call}
use cloister.Routes.OciRegistry.Push.{
  upload_key, with_chunk, check_content_length_header, store_content,
}
use cloister.Routes.OciRegistry.Uploads.{
  open_session, open_checks, append_chunk, patch_checks, finalize_checks, with_upload, claimed_key,
  session_bytes, drop_session, store_upload, finalize_session, answer_created, store_monolithic,
  monolithic_checks, finalize_upload, upload_monolithic,
}
use cloister.Routes.OciRegistry.ManifestPut.{
  tagged, answer_manifest, store_manifest, manifest_checks, put_manifest,
}
use cloister.Routes.OciRegistry.Steps.{
  upon-keeps, if_checked-keeps, uploads-store_content, gate_write-uploads,
}
use cloister.Routes.OciRegistry.{handle}
use cloister.Routes.OciRegistry.Sessions.{
  IsSound, upsert-All, with_chunk-IsSound, size-ok, empty_lem, AllSound, patch_checks-ok,
  finalize_checks-ok, session_of-IsSound,
}
use cloister.Routes.OciRegistry.Invariants.{handle-keeps}

module _ (platform : Platform) (max_blob_bytes : ℕ) where
  open_session-AllSound :
      (this : Registry) (call : Call) (name : String)
      → AllSound platform max_blob_bytes this
      → AllSound platform max_blob_bytes (open_session platform max_blob_bytes this call name).0
  unfolding open_session
  open_session-AllSound this call name sound =
      if_checked-keeps (AllSound platform max_blob_bytes) this
        (open_checks platform max_blob_bytes call) _ sound
        (λ done checked.
          let (declared, fits) =
            then-ok (check_content_length_header max_blob_bytes call.content_length) checked in
          upsert-All (IsSound max_blob_bytes) _ this.uploads
            (with_chunk-IsSound max_blob_bytes call.body
              (record { uuid = call.new_upload_id; name = name; chunks = []; size = 0 })
              (empty_lem, omega arith)
              (ground (arith, size-ok max_blob_bytes (length call.body) fits)))
            sound)

  append_chunk-AllSound :
      (this : Registry) (call : Call) (name uuid : String)
      → AllSound platform max_blob_bytes this
      → AllSound platform max_blob_bytes
          (append_chunk platform max_blob_bytes this call name uuid).0
  unfolding append_chunk
  append_chunk-AllSound this call name uuid sound =
      if_checked-keeps (AllSound platform max_blob_bytes) this
        (patch_checks platform max_blob_bytes this call name uuid) _ sound
        (λ session checked.
          let (looked, fits) =
            patch_checks-ok platform max_blob_bytes this call name uuid session checked in
          upsert-All (IsSound max_blob_bytes) _ this.uploads
            (with_chunk-IsSound max_blob_bytes call.body session
              (session_of-IsSound platform max_blob_bytes this name uuid session sound looked) fits)
            sound)

  -- What only the stores change leaves the sessions sound.
  stored-AllSound :
      (this : Registry) (call : Call) (name key : String) (kind : MembershipKind) (bytes : List ℕ)
      → AllSound platform max_blob_bytes this
      → AllSound platform max_blob_bytes (store_content platform this call name key kind bytes).0
  stored-AllSound this call name key kind bytes sound =
      rw (uploads-store_content platform this call name key kind bytes) sound

  store_upload-AllSound :
      (this : Registry) (call : Call) (name : String) (session : UploadSession) (key : String)
      → AllSound platform max_blob_bytes this
      → AllSound platform max_blob_bytes
          (store_upload platform max_blob_bytes this call name session key).0
  store_upload-AllSound this call name session key sound =
      upon-keeps (AllSound platform max_blob_bytes)
        (store_content platform this call name key blob
          (session_bytes platform max_blob_bytes session))
        (drop_session platform max_blob_bytes session.uuid name key)
        (stored-AllSound this call name key blob (session_bytes platform max_blob_bytes session)
          sound)
        (λ this' done ran kept.
          delete_where-All (IsSound max_blob_bytes) (λ u. upload_key u == session.uuid)
            this'.uploads kept)

  finalize_session-AllSound :
      (this : Registry) (call : Call) (name uuid : String) (chosen : String × UploadSession)
      → AllSound platform max_blob_bytes this
      → finalize_checks platform max_blob_bytes this call name uuid ≡ ok chosen
      → AllSound platform max_blob_bytes
          (finalize_session platform max_blob_bytes this call name chosen).0
  finalize_session-AllSound this call name uuid (claimed, session) sound checked =
      let (looked, fits) =
        finalize_checks-ok platform max_blob_bytes this call name uuid claimed session checked in
      let grown = with_chunk call.body session in
      let kept =
        upsert-All (IsSound max_blob_bytes) grown this.uploads
          (with_chunk-IsSound max_blob_bytes call.body session
            (session_of-IsSound platform max_blob_bytes this name uuid session sound looked) fits)
          sound in
      if_checked-keeps (AllSound platform max_blob_bytes)
        (with_upload platform max_blob_bytes this grown)
        (claimed_key platform max_blob_bytes claimed grown)
        (store_upload platform max_blob_bytes (with_upload platform max_blob_bytes this grown) call
          name grown)
        kept
        (λ key matched.
          store_upload-AllSound (with_upload platform max_blob_bytes this grown) call name grown key
            kept)

  finalize_upload-AllSound :
      (this : Registry) (call : Call) (name uuid : String)
      → AllSound platform max_blob_bytes this
      → AllSound platform max_blob_bytes
          (finalize_upload platform max_blob_bytes this call name uuid).0
  unfolding finalize_upload
  finalize_upload-AllSound this call name uuid sound =
      if_checked-keeps (AllSound platform max_blob_bytes) this
        (finalize_checks platform max_blob_bytes this call name uuid)
        (finalize_session platform max_blob_bytes this call name) sound
        (λ chosen checked. finalize_session-AllSound this call name uuid chosen sound checked)

  upload_monolithic-AllSound :
      (this : Registry) (call : Call) (name claimed : String)
      → AllSound platform max_blob_bytes this
      → AllSound platform max_blob_bytes
          (upload_monolithic platform max_blob_bytes this call name claimed).0
  unfolding upload_monolithic
  upload_monolithic-AllSound this call name claimed sound =
      if_checked-keeps (AllSound platform max_blob_bytes) this
        (monolithic_checks platform max_blob_bytes call claimed)
        (store_monolithic platform max_blob_bytes this call name) sound
        (λ key checked.
          upon-keeps (AllSound platform max_blob_bytes)
            (store_content platform this call name key blob call.body)
            (answer_created platform max_blob_bytes name key)
            (stored-AllSound this call name key blob call.body sound) (λ this' done ran kept. kept))

  tagged-uploads :
      (this : Registry) (call : Call) (name reference key : String) (hex : Option String)
      → (tagged platform max_blob_bytes this call name reference key hex).uploads ≡ this.uploads
  tagged-uploads this call name reference key none = refl
  tagged-uploads this call name reference key (some hex) = refl

  put_manifest-AllSound :
      (this : Registry) (call : Call) (name reference : String)
      → AllSound platform max_blob_bytes this
      → AllSound platform max_blob_bytes
          (put_manifest platform max_blob_bytes this call name reference).0
  unfolding put_manifest
  put_manifest-AllSound this call name reference sound =
      if_checked-keeps (AllSound platform max_blob_bytes) this
        (manifest_checks platform max_blob_bytes call reference)
        (store_manifest platform max_blob_bytes this call name reference) sound
        (λ key checked.
          upon-keeps (AllSound platform max_blob_bytes)
            (store_content platform this call name key manifest call.body)
            (answer_manifest platform max_blob_bytes call name reference key)
            (stored-AllSound this call name key manifest call.body sound)
            (λ this' done ran kept.
              rw (tagged-uploads this' call name reference key (sha256_part reference)) kept))

  -- From sessions whose size is the number of their bytes and within the cap, and so from none: after any
  -- request, to any endpoint and whatever its outcome, every open session has those properties.
  pub handle-AllSound :
      (rt : Runtime) (env : Env) (this : Registry) (call : Call)
      → All (IsSound max_blob_bytes) this.uploads
      → All (IsSound max_blob_bytes) (handle rt platform env max_blob_bytes this call).0.uploads
  handle-AllSound rt env this call sound =
      handle-keeps rt platform env max_blob_bytes (AllSound platform max_blob_bytes)
        (AllSound platform max_blob_bytes) this call (λ this sound. sound)
        (λ this name sound. rw (gate_write-uploads platform rt env this call name).0 sound)
        (λ this name sound. open_session-AllSound this call name sound)
        (λ this name claimed sound. upload_monolithic-AllSound this call name claimed sound)
        (λ this name uuid sound. append_chunk-AllSound this call name uuid sound)
        (λ this name uuid sound. finalize_upload-AllSound this call name uuid sound)
        (λ this name reference sound. put_manifest-AllSound this call name reference sound) sound
