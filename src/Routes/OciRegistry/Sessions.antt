-- ===== src/Routes/OciRegistry/Sessions.antt =====
-- src/routes/oci-registry.ts: the sessions that are open, after any request.
use mathlib.Core.List.{append_assoc, append-nil}
use cloister.Prelude.{
  ℕ, ◌+◌, ◌-◌, ◌≤◌, ◌≡◌, refl, sym, ap, subst, ◌∙◌, String, true, some, List, [], ◌∷◌, ◌++◌, arith,
  All, leb→le, length, leb, Bool-cases, inl, inr, length-append,
}
use cloister.Prelude.Keys.{◌==◌, nat_eq, string_eq}
use cloister.Prelude.Results.{ok, passed-ok, bind-ok, then-ok, guard-ok, ok-injective}
use cloister.Table.{find, upsert}
use cloister.Routes.OciRegistry.Names.{parse_sha256_param}
use cloister.Routes.OciRegistry.Types.{Platform, UploadSession, Registry, Call}
use cloister.Routes.OciRegistry.Pull.{or_return}
use cloister.Routes.OciRegistry.Push.{
  upload_key, with_chunk, flatten, check_actual_size, check_content_length_header, concat_chunks,
}
use cloister.Routes.OciRegistry.Uploads.{session_of, patch_checks, finalize_checks}
use cloister.Routes.OciRegistry.Steps.{or_return-ok}

-- The size is the number of bytes, and within the cap.
abbrev pub IsSound : ℕ → UploadSession → Type 0
IsSound max_blob_bytes session =
    (session.size ≡ length (flatten session.chunks)) × (session.size ≤ max_blob_bytes)

pub flatten-snoc :
    (chunks : List (List ℕ)) (chunk : List ℕ)
    → flatten (chunks ++ chunk ∷ []) ≡ flatten chunks ++ chunk
unfolding flatten
flatten-snoc [] chunk = append-nil chunk
flatten-snoc (c ∷ chunks) chunk =
    ap (λ t. c ++ t) (flatten-snoc chunks chunk) ∙ sym (append_assoc c (flatten chunks) chunk)

length-with_chunk :
    (bytes : List ℕ) (session : UploadSession)
    → session.size ≡ length (flatten session.chunks)
    → (with_chunk bytes session).size ≡ length (flatten (with_chunk bytes session).chunks)
length-with_chunk bytes session h = elim (Bool-cases (length bytes == 0)) [
  | inl empty ↦ rw empty h
  | inr some_bytes ↦
      rw
        (
          some_bytes,
          flatten-snoc session.chunks bytes,
          length-append (flatten session.chunks) bytes,
        )
        (omega (arith, h))
]

pub upsert-All :
    (P : UploadSession → Type 0) (session : UploadSession) (uploads : List UploadSession)
    → P session
    → All P uploads
    → All P (upsert upload_key session uploads)
unfolding upsert
upsert-All P session [] p h = (p, tt)
upsert-All P session (s ∷ uploads) p h = elim (Bool-cases (s.uuid == session.uuid)) [
  | inl same ↦ rw same (p, h.1)
  | inr other ↦ rw other (h.0, upsert-All P session uploads p h.1)
]

some-injective : {s t : UploadSession} → some s ≡ some t → s ≡ t
some-injective h = cc

pub find-All :
    (P : UploadSession → Type 0) (uuid : String) (uploads : List UploadSession)
    (session : UploadSession)
    → All P uploads
    → find upload_key uuid uploads ≡ some session
    → P session
unfolding find
find-All P uuid [] session h found = cc
find-All P uuid (s ∷ uploads) session h found = elim (Bool-cases (s.uuid == uuid)) [
  | inl same ↦ let e : some s ≡ some session = rw same at found in subst P (some-injective e) h.0
  | inr other ↦ find-All P uuid uploads session h.1 (rw other at found)
]

pub with_chunk-IsSound :
    (max_blob_bytes : ℕ) (bytes : List ℕ) (session : UploadSession)
    → IsSound max_blob_bytes session
    → session.size + length bytes ≤ max_blob_bytes
    → IsSound max_blob_bytes (with_chunk bytes session)
with_chunk-IsSound max_blob_bytes bytes session h fits =
    (length-with_chunk bytes session h.0, ground (arith, h.1, fits))

pub size-ok :
    (max_blob_bytes n : ℕ) → check_actual_size max_blob_bytes n ≡ ok tt → n ≤ max_blob_bytes
unfolding check_actual_size
size-ok max_blob_bytes n h = leb→le n max_blob_bytes (passed-ok (leb n max_blob_bytes) _ h)

-- The bytes of a sound session: its buffer is filled to the end.
pub concat_chunks-flatten :
    (chunks : List (List ℕ)) (size : ℕ)
    → size ≡ length (flatten chunks)
    → concat_chunks chunks size ≡ flatten chunks
unfolding concat_chunks
concat_chunks-flatten chunks size h =
    let none_left : size - length (flatten chunks) ≡ 0 = omega (arith, h) in
    rw none_left (append-nil (flatten chunks))

pub empty_lem : ◌≡◌ {A = ℕ} 0 (length (flatten []))
unfolding flatten
empty_lem = refl

module _ (platform : Platform) (max_blob_bytes : ℕ) where
  abbrev pub AllSound : Registry → Type 0
  AllSound this = All (IsSound max_blob_bytes) this.uploads

  pub session_of-find :
      (this : Registry) (name uuid : String) (session : UploadSession)
      → session_of platform max_blob_bytes this name uuid ≡ ok session
      → (find upload_key uuid this.uploads ≡ some session) × ((session.name == name) ≡ true)
  session_of-find this name uuid session h =
      let (found, looked, rest) = bind-ok (or_return (find upload_key uuid this.uploads) _) h in
      let (same_name, same) = guard-ok (found.name == name) _ rest in
      let e = ok-injective same in
      (or_return-ok _ _ found looked ∙ ap some e, subst (λ u. (u.name == name) ≡ true) e same_name)

  pub patch_checks-ok :
      (this : Registry) (call : Call) (name uuid : String) (session : UploadSession)
      → patch_checks platform max_blob_bytes this call name uuid ≡ ok session
      → (session_of platform max_blob_bytes this name uuid ≡ ok session)
        × (session.size + length call.body ≤ max_blob_bytes)
  patch_checks-ok this call name uuid session h =
      let (found, looked, rest) = bind-ok (session_of platform max_blob_bytes this name uuid) h in
      let (declared, rest') = then-ok _ rest in
      let (fits, same) =
        then-ok (check_actual_size max_blob_bytes (found.size + length call.body)) rest' in
      let e = ok-injective same in
      (
        looked ∙ same,
        subst (λ u. u.size + length call.body ≤ max_blob_bytes) e (size-ok max_blob_bytes _ fits),
      )

  pub finalize_checks-ok :
      (this : Registry) (call : Call) (name uuid claimed : String) (session : UploadSession)
      → finalize_checks platform max_blob_bytes this call name uuid ≡ ok (claimed, session)
      → (session_of platform max_blob_bytes this name uuid ≡ ok session)
        × (session.size + length call.body ≤ max_blob_bytes)
  finalize_checks-ok this call name uuid claimed session h =
      let (found, looked, rest) = bind-ok (session_of platform max_blob_bytes this name uuid) h in
      let (named, given, rest₁) =
        bind-ok (or_return (platform.patterns.digest_param call.url) _) rest in
      let (hex, parsed, rest₂) = bind-ok (or_return (parse_sha256_param named) _) rest₁ in
      let (declared, rest₃) =
        then-ok (check_content_length_header max_blob_bytes call.content_length) rest₂ in
      let (fits, same) =
        then-ok (check_actual_size max_blob_bytes (found.size + length call.body)) rest₃ in
      let e : found ≡ session = ap (λ p. p.1) (ok-injective same) in
      (
        looked ∙ ap ok e,
        subst (λ u. u.size + length call.body ≤ max_blob_bytes) e (size-ok max_blob_bytes _ fits),
      )

  -- The session of the URL is one of the sessions, so it is sound.
  pub session_of-IsSound :
      (this : Registry) (name uuid : String) (session : UploadSession)
      → AllSound this
      → session_of platform max_blob_bytes this name uuid ≡ ok session
      → IsSound max_blob_bytes session
  session_of-IsSound this name uuid session sound h =
      find-All (IsSound max_blob_bytes) uuid this.uploads session sound
        (session_of-find this name uuid session h).0
