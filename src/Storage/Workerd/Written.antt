-- ===== src/Storage/Workerd/Written.antt =====
-- src/storage/workerd.ts: a content is there after it is written.
use cloister.Prelude.{
  ℕ, ◌+◌, ◌≡◌, refl, sym, ◌∙◌, String, true, false, ◌||◌, List, [], ◌∷◌, arith, leb, length, take,
  drop, Bool-cases, inl, inr,
}
use cloister.Prelude.Keys.{◌==◌, ==_refl, ==_iff, string_eq, nat_eq, pair_eq}
use cloister.Table.{exists, insert_or_ignore}
use cloister.Table.Laws.{find-insert_or_ignore, is_some-find}
use cloister.Storage.Workerd.{
  Chunk, Blobs, blob_key, chunk_key, slices, insert_chunks, write, of_digest, has,
}

exists-insert_or_ignore :
    (d k : String) (n : ℕ) (part : List ℕ) (t : List Chunk)
    → exists
        (of_digest k)
        (insert_or_ignore chunk_key (record { digest = d; seq = n; bytes = part }) t)
      ≡ (exists (of_digest k) t || d == k)
unfolding exists insert_or_ignore
exists-insert_or_ignore d k n part [] = ground arith
exists-insert_or_ignore d k n part (r ∷ t) =
    ground (
      arith,
      exists-insert_or_ignore d k n part t,
      ==_iff r.digest d,
      ==_iff r.digest k,
      ==_iff d k,
    )

exists-insert_chunks :
    (d : String) (n : ℕ) (parts : List (List ℕ)) (t : List Chunk)
    → exists (of_digest d) t ≡ true
    → exists (of_digest d) (insert_chunks d n parts t) ≡ true
unfolding insert_chunks
exists-insert_chunks d n [] t h = h
exists-insert_chunks d n (part ∷ parts) t h =
    exists-insert_chunks d (n + 1) parts _ (exists-insert_or_ignore d d n part t ∙ rw h refl)

exists_first :
    (d : String) (part : List ℕ) (parts : List (List ℕ)) (t : List Chunk)
    → exists (of_digest d) (insert_chunks d 0 (part ∷ parts) t) ≡ true
unfolding insert_chunks
exists_first d part parts t =
    exists-insert_chunks d 1 parts _
      (exists-insert_or_ignore d d 0 part t ∙ rw (==_refl d) (ground arith))

has_large :
    (size : ℕ) (d : String) (bytes : List ℕ) (t : List Chunk)
    → leb (length bytes) size ≡ false
    → exists (of_digest d) (insert_chunks d 0 (slices size (length bytes) bytes) t) ≡ true
unfolding insert_chunks slices
has_large size d [] t h = absurd (ground (arith, h))
has_large size d (b ∷ bytes) t h =
    exists_first d (take size (b ∷ bytes)) (slices size (length bytes) (drop size (b ∷ bytes))) t

-- What is written is there, whatever the store held.
pub has-write :
    (size : ℕ) (d : String) (bytes : List ℕ) (this : Blobs) → has d (write size d bytes this) ≡ true
unfolding has write
has-write size d bytes this = elim (Bool-cases (leb (length bytes) size)) [
  | inl small ↦
      rw
        (
          small,
          sym (
              is_some-find blob_key d
                (insert_or_ignore blob_key (record { digest = d; bytes = bytes }) this.blobs)),
          find-insert_or_ignore blob_key (record { digest = d; bytes = bytes }) d this.blobs,
          ==_refl d,
        )
        (ground arith)
  | inr large ↦ rw (large, has_large size d bytes this.chunks large) (ground arith)
]
