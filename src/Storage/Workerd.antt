-- ===== src/Storage/Workerd.antt =====
-- src/storage/workerd.ts: the class WorkerdBlobStore, and in Refs the class WorkerdRefStore. A content larger than the chunk size is split
-- into numbered rows. The two hashes are arguments.
pub mod Chunks
pub mod Contents
pub mod Written
pub mod Refs
pub mod Swap
mod Tests
use cloister.Prelude.{
  ℕ, zero, suc, ◌+◌, ◌^◌, String, Bool, true, false, Option, none, some, List, [], ◌∷◌, ◌++◌, leb,
  length, take, drop, is_some, if◌then◌else◌,
}
use cloister.Prelude.Keys.{◌==◌, nat_eq, string_eq, pair_eq}
use cloister.Prelude.Results.{Result, ok, err, ◌>>=◌, ◌>>◌}
use cloister.Prelude.Sort.{sort}
use cloister.Prelude.Text.{◌&◌}
use cloister.Table.{select, find, exists, insert_or_ignore}

-- 1 << 20
abbrev pub blob_chunk_size : ℕ
blob_chunk_size = 2 ^ 20

pub record Blob : Type 0 where
  pub digest : String
  pub bytes : List ℕ

pub record Chunk : Type 0 where
  pub digest : String
  pub seq : ℕ
  pub bytes : List ℕ

abbrev pub blob_key : Blob → String
blob_key r = r.digest

abbrev pub chunk_key : Chunk → String × ℕ
chunk_key r = (r.digest, r.seq)

-- The two tables.
pub record Blobs : Type 0 where
  pub blobs : List Blob
  pub chunks : List Chunk

abbrev pub no_blobs : Blobs
no_blobs = record { blobs = []; chunks = [] }

-- The slices of the loop, each of `size` bytes but the last. Each round takes at least one byte, so the
-- number of bytes is enough fuel.
unfoldable pub slices : ℕ → ℕ → List ℕ → List (List ℕ)
slices size zero bytes = []
slices size (suc fuel) [] = []
slices size (suc fuel) (b ∷ bytes) =
    take size (b ∷ bytes) ∷ slices size fuel (drop size (b ∷ bytes))

-- The loop's statements, from the row `seq` on.
unfoldable pub insert_chunks : String → ℕ → List (List ℕ) → List Chunk → List Chunk
insert_chunks d seq [] chunks = chunks
insert_chunks d seq (part ∷ parts) chunks =
    insert_chunks d (seq + 1) parts
      (insert_or_ignore chunk_key (record { digest = d; seq = seq; bytes = part }) chunks)

-- The part of `put` after the key is known.
unfoldable pub write : ℕ → String → List ℕ → Blobs → Blobs
unfolding slices insert_chunks
write size d bytes this =
    if leb (length bytes) size
    then record this {
      blobs = insert_or_ignore blob_key (record { digest = d; bytes = bytes }) this.blobs;
    }
    else record this { chunks = insert_chunks d 0 (slices size (length bytes) bytes) this.chunks }

abbrev pub of_digest : String → Chunk → Bool
of_digest d r = r.digest == d

abbrev pub seq_le : Chunk → Chunk → Bool
seq_le r s = leb r.seq s.seq

unfoldable pub join : List Chunk → List ℕ
join [] = []
join (r ∷ rows) = r.bytes ++ join rows

abbrev pub joined : List Chunk → Option (List ℕ)
joined [] = none
joined (r ∷ rows) = some (join (r ∷ rows))

unfoldable pub get_chunked : String → Blobs → Option (List ℕ)
unfolding join
get_chunked d this = joined (sort seq_le (select (of_digest d) this.chunks))

abbrev pub row_or_chunks : String → Blobs → Option Blob → Option (List ℕ)
row_or_chunks d this none = get_chunked d this
row_or_chunks d this (some row) = some row.bytes

unfoldable pub get : String → Blobs → Option (List ℕ)
unfolding get_chunked
get d this = row_or_chunks d this (find blob_key d this.blobs)

unfoldable pub has : String → Blobs → Bool
has d this =
    if exists (λ r. r.digest == d) this.blobs then true else exists (of_digest d) this.chunks

-- The two digests of a content, as texts.
module _ (sha256 blake3 : List ℕ → String) where
  -- The key under which the bytes are stored, or the message of the error.
  unfoldable pub storage_key : List ℕ → Option String → Result String String
  storage_key bytes none = ok (sha256 bytes)
  storage_key bytes (some key) =
      if sha256 bytes == key
      then ok key
      else if blake3 bytes == key
      then ok key
      else err (
          "BlobStore.put: digest mismatch — key="
          & key
          & " sha256(body)="
          & sha256 bytes
          & " blake3(body)="
          & blake3 bytes)

  abbrev pub write_under : ℕ → List ℕ → Blobs → Result String String → Blobs × Result String String
  write_under size bytes this (err message) = (this, err message)
  write_under size bytes this (ok d) = (write size d bytes this, ok d)

  unfoldable pub put : ℕ → List ℕ → Option String → Blobs → Blobs × Result String String
  unfolding storage_key
  put size bytes key this = write_under size bytes this (storage_key bytes key)
