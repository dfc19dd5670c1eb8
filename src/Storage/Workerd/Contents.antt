-- ===== src/Storage/Workerd/Contents.antt =====
-- src/storage/workerd.ts: the store as a map from digests to contents.
use cloister.Prelude.{
  ℕ, ◌≤◌, ◌≡◌, ◌⊎◌, refl, sym, ap, subst, ◌∙◌, String, Bool, true, false, ◌||◌, Option, none, some,
  List, [], ◌∷◌, ◌++◌, arith, All, leb, length, Bool-cases, inl, inr, if◌then◌else◌,
}
use cloister.Prelude.Keys.{◌==◌, ==_refl, ==_iff, string_eq}
use cloister.Prelude.Results.{Result, ok, err, ok-injective}
use cloister.Prelude.Sort.{sort}
use cloister.Table.{select, find, exists}
use cloister.Table.Laws.{find-insert_or_ignore, is_some-find}
use cloister.Storage.Workerd.{
  Blob, Chunk, Blobs, blob_key, no_blobs, slices, write, of_digest, seq_le, joined, get_chunked,
  row_or_chunks, get, has, storage_key, write_under, put,
}
use cloister.Storage.Workerd.Chunks.{
  insert_held, numbered, insert_chunks_new, insert_chunks_again, insert_chunks_other, sort-numbered,
  join-slices,
}

-- The row of a small content, and the rows of a large one.
abbrev pub single : ℕ → String → List ℕ → Option Blob
single size d bytes =
    if leb (length bytes) size then some (record { digest = d; bytes = bytes }) else none

abbrev pub pieces : ℕ → String → List ℕ → List Chunk
pieces size d bytes =
    if leb (length bytes) size then [] else numbered d 0 (slices size (length bytes) bytes)

-- The two tables hold the content under the digest, and nothing else.
abbrev pub Holds : ℕ → String → List ℕ → Blobs → Type 0
Holds size d bytes this =
    (find blob_key d this.blobs ≡ single size d bytes)
    × (select (of_digest d) this.chunks ≡ pieces size d bytes)

abbrev pub IsAbsent : String → Blobs → Type 0
IsAbsent d this = (find blob_key d this.blobs ≡ none) × (select (of_digest d) this.chunks ≡ [])

exists-select :
    (d : String) (t : List Chunk)
    → exists (of_digest d) t ≡ exists (of_digest d) (select (of_digest d) t)
unfolding exists select
exists-select d [] = refl
exists-select d (r ∷ t) = ground (arith, exists-select d t)

joined-slices :
    (size : ℕ) (d : String) (bytes : List ℕ)
    → 1 ≤ size
    → leb (length bytes) size ≡ false
    → (joined (numbered d 0 (slices size (length bytes) bytes)) ≡ some bytes)
      × (exists (of_digest d) (numbered d 0 (slices size (length bytes) bytes)) ≡ true)
unfolding slices exists
joined-slices size d [] h large = absurd (ground (arith, h, large))
joined-slices size d (b ∷ bytes) h large = (
  ap some (join-slices size (length (b ∷ bytes)) d 0 (b ∷ bytes) h (omega arith)),
  rw (==_refl d) refl,
)

get-absent :
    (d : String) (this : Blobs) → IsAbsent d this → (get d this ≡ none) × (has d this ≡ false)
unfolding get get_chunked has sort exists
get-absent d this h = (
  ap (row_or_chunks d this) h.0 ∙ ap (λ t. joined (sort seq_le t)) h.1,
  rw (sym (is_some-find blob_key d this.blobs), h.0, exists-select d this.chunks, h.1) refl,
)

get-held :
    (size : ℕ) (d : String) (bytes : List ℕ) (this : Blobs)
    → 1 ≤ size
    → Holds size d bytes this
    → (get d this ≡ some bytes) × (has d this ≡ true)
unfolding get get_chunked has
get-held size d bytes this h held = elim (Bool-cases (leb (length bytes) size)) [
  | inl small ↦
      let found : find blob_key d this.blobs ≡ some (record { digest = d; bytes = bytes }) =
        held.0 ∙ rw small refl in
      (ap (row_or_chunks d this) found, rw (sym (is_some-find blob_key d this.blobs), found) refl)
  | inr large ↦
      let found : find blob_key d this.blobs ≡ none = held.0 ∙ rw large refl in
      let rows : select (of_digest d) this.chunks
          ≡ numbered d 0 (slices size (length bytes) bytes) =
        held.1 ∙ rw large refl in
      let (whole, some_row) = joined-slices size d bytes h large in
      (
        ap (row_or_chunks d this) found
            ∙ ap (λ t. joined (sort seq_le t)) rows
            ∙ ap joined (sort-numbered d 0 (slices size (length bytes) bytes))
            ∙ whole,
        rw (sym (is_some-find blob_key d this.blobs), found, exists-select d this.chunks, rows)
            some_row,
      )
]

-- A content that is there is not written again.
write_again :
    (size : ℕ) (d : String) (bytes : List ℕ) (this : Blobs)
    → Holds size d bytes this
    → write size d bytes this ≡ this
unfolding write
write_again size d bytes this held = elim (Bool-cases (leb (length bytes) size)) [
  | inl small ↦
      let found : find blob_key d this.blobs ≡ some (record { digest = d; bytes = bytes }) =
        held.0 ∙ rw small refl in
      rw small (
        ap (λ t. record this { blobs = t })
          (insert_held blob_key (record { digest = d; bytes = bytes }) this.blobs (rw found refl)))
  | inr large ↦ rw large (
      ap (λ t. record this { chunks = t })
        (insert_chunks_again d 0 (slices size (length bytes) bytes) this.chunks []
          (held.1 ∙ rw large refl)))
]

write_new :
    (size : ℕ) (d : String) (bytes : List ℕ) (this : Blobs)
    → IsAbsent d this
    → Holds size d bytes (write size d bytes this)
unfolding write
write_new size d bytes this (no_row, no_rows) = elim (Bool-cases (leb (length bytes) size)) [
  | inl small ↦ rw small (
    find-insert_or_ignore blob_key (record { digest = d; bytes = bytes }) d this.blobs
        ∙ rw (no_row, ==_refl d) refl,
    no_rows,
  )
  | inr large ↦ rw large (
    no_row,
    insert_chunks_new d 0 (slices size (length bytes) bytes) this.chunks (rw no_rows tt)
        ∙ ap (λ t. t ++ numbered d 0 (slices size (length bytes) bytes)) no_rows,
  )
]

-- The rows of the other digests stay.
write_other :
    (size : ℕ) (d k : String) (bytes : List ℕ) (this : Blobs)
    → (d == k) ≡ false
    → (find blob_key k (write size d bytes this).blobs ≡ find blob_key k this.blobs)
      × (select (of_digest k) (write size d bytes this).chunks ≡ select (of_digest k) this.chunks)
unfolding write
write_other size d k bytes this other = elim (Bool-cases (leb (length bytes) size)) [
  | inl small ↦ rw small (
    find-insert_or_ignore blob_key (record { digest = d; bytes = bytes }) k this.blobs
        ∙ rw other refl,
    refl,
  )
  | inr large ↦
      rw large
        (refl, insert_chunks_other d k 0 (slices size (length bytes) bytes) this.chunks other)
]

abbrev pub IsHeld : ℕ → Bool → String → List ℕ → Blobs → Type 0
IsHeld size true d bytes this = Holds size d bytes this
IsHeld size false d bytes this = IsAbsent d this

write-same :
    (size : ℕ) (seen : Bool) (d : String) (bytes : List ℕ) (this : Blobs)
    → IsHeld size seen d bytes this
    → Holds size d bytes (write size d bytes this)
write-same size true d bytes this h =
    subst (Holds size d bytes) (sym (write_again size d bytes this h)) h
write-same size false d bytes this h = write_new size d bytes this h

kept :
    (size : ℕ) (seen : Bool) (d k : String) (bytes held : List ℕ) (this : Blobs)
    → (d == k) ≡ false
    → IsHeld size seen k held this
    → IsHeld size seen k held (write size d bytes this)
kept size true d k bytes held this other h =
    let (row, rows) = write_other size d k bytes this other in (row ∙ h.0, rows ∙ h.1)
kept size false d k bytes held this other h =
    let (row, rows) = write_other size d k bytes this other in (row ∙ h.0, rows ∙ h.1)

write-IsHeld :
    (size : ℕ) (seen : Bool) (d k : String) (content : String → List ℕ) (this : Blobs)
    → IsHeld size seen k (content k) this
    → IsHeld size (d == k || seen) k (content k) (write size d (content d) this)
write-IsHeld size seen d k content this h = elim (Bool-cases (d == k)) [
  | inl same ↦
      subst (λ b. IsHeld size (b || seen) k (content k) (write size d (content d) this)) (sym same)
        (subst (λ j. Holds size k (content k) (write size j (content j) this))
          (sym ((==_iff d k).0 same)) (write-same size seen k (content k) this h))
  | inr other ↦
      subst (λ b. IsHeld size (b || seen) k (content k) (write size d (content d) this)) (sym other)
        (kept size seen d k (content d) (content k) this other h)
]

or_assoc : (a b c : Bool) → (a || (b || c)) ≡ ((a || b) || c)
or_assoc a b c = ground arith

or_false : (a : Bool) → (a || false) ≡ a
or_false a = ground arith

module _ (sha256 blake3 : List ℕ → String) (size : ℕ) where
  -- The bytes and the key that a caller gives.
  abbrev pub Put : Type 0
  Put = List ℕ × Option String

  abbrev pub put_all : Blobs → List Put → Blobs
  put_all this [] = this
  put_all this (p ∷ puts) = put_all (put sha256 blake3 size p.0 p.1 this).0 puts

  abbrev pub stores : String → Result String String → Bool
  stores k (err message) = false
  stores k (ok d) = d == k

  -- Some put was accepted under the key.
  abbrev pub was_put : String → List Put → Bool
  was_put k [] = false
  was_put k (p ∷ puts) = was_put k puts || stores k (storage_key sha256 blake3 p.0 p.1)

  -- `content` gives a content back from either of its digests.
  abbrev pub Separates : (String → List ℕ) → Put → Type 0
  Separates content p = (content (sha256 p.0) ≡ p.0) × (content (blake3 p.0) ≡ p.0)

  key_cases :
      (bytes : List ℕ) (key : Option String) (d : String)
      → storage_key sha256 blake3 bytes key ≡ ok d
      → (sha256 bytes ≡ d) ⊎ (blake3 bytes ≡ d)
  unfolding storage_key
  key_cases bytes none d made = inl (ok-injective made)
  key_cases bytes (some key) d made =
      ground (arith, made, ==_iff (sha256 bytes) key, ==_iff (blake3 bytes) key)

  pub storage_key-content :
      (content : String → List ℕ) (bytes : List ℕ) (key : Option String) (d : String)
      → Separates content (bytes, key)
      → storage_key sha256 blake3 bytes key ≡ ok d
      → content d ≡ bytes
  storage_key-content content bytes key d h made = elim (key_cases bytes key d made) [
    | inl e ↦ ap content (sym e) ∙ h.0
    | inr e ↦ ap content (sym e) ∙ h.1
  ]

  write_under-IsHeld :
      (content : String → List ℕ) (k : String) (seen : Bool) (bytes : List ℕ) (this : Blobs)
      (made : Result String String)
      → ((d : String) → made ≡ ok d → content d ≡ bytes)
      → IsHeld size seen k (content k) this
      → IsHeld size
          (stores k made || seen)
          k
          (content k)
          (write_under sha256 blake3 size bytes this made).0
  write_under-IsHeld content k seen bytes this (err message) h held = held
  write_under-IsHeld content k seen bytes this (ok d) h held =
      subst (λ b. IsHeld size (d == k || seen) k (content k) (write size d b this)) (h d refl)
        (write-IsHeld size seen d k content this held)

  -- A put adds its content under its key, if it is accepted, and leaves the other keys as they are.
  pub put-IsHeld :
      (content : String → List ℕ) (k : String) (seen : Bool) (bytes : List ℕ) (key : Option String)
      (this : Blobs)
      → Separates content (bytes, key)
      → IsHeld size seen k (content k) this
      → IsHeld size
          (stores k (storage_key sha256 blake3 bytes key) || seen)
          k
          (content k)
          (put sha256 blake3 size bytes key this).0
  unfolding put
  put-IsHeld content k seen bytes key this h held =
      write_under-IsHeld content k seen bytes this (storage_key sha256 blake3 bytes key)
        (λ d made. storage_key-content content bytes key d h made) held

  put_all-IsHeld :
      (content : String → List ℕ) (k : String) (seen : Bool) (this : Blobs) (puts : List Put)
      → All (Separates content) puts
      → IsHeld size seen k (content k) this
      → IsHeld size (was_put k puts || seen) k (content k) (put_all this puts)
  put_all-IsHeld content k seen this [] h held = held
  put_all-IsHeld content k seen this ((bytes, key) ∷ puts) h held =
      let made = storage_key sha256 blake3 bytes key in
      subst (λ b. IsHeld size b k (content k) (put_all this ((bytes, key) ∷ puts)))
        (or_assoc (was_put k puts) (stores k made) seen)
        (put_all-IsHeld content k (stores k made || seen) (put sha256 blake3 size bytes key this).0
          puts h.1 (put-IsHeld content k seen bytes key this h.0 held))

  pub read_back :
      (content : String → List ℕ) (k : String) (seen : Bool) (this : Blobs)
      → 1 ≤ size
      → IsHeld size seen k (content k) this
      → (get k this ≡ (if seen then some (content k) else none)) × (has k this ≡ seen)
  read_back content k true this h held = get-held size k (content k) this h held
  read_back content k false this h held = get-absent k this held

  -- Where no two of the contents that are put share a digest of either kind: after any puts into an empty
  -- store, accepted or refused and in any order, of contents below and above the chunk size, a read
  -- gives exactly the content whose digest it names if a put was accepted under that digest, and nothing
  -- otherwise; and the existence check agrees.
  pub get-put_all :
      (content : String → List ℕ) (k : String) (puts : List Put)
      → 1 ≤ size
      → All (Separates content) puts
      → (get k (put_all no_blobs puts) ≡ (if was_put k puts then some (content k) else none))
        × (has k (put_all no_blobs puts) ≡ was_put k puts)
  unfolding find select
  get-put_all content k puts h separate =
      read_back content k (was_put k puts) (put_all no_blobs puts) h (
        subst (λ b. IsHeld size b k (content k) (put_all no_blobs puts)) (or_false (was_put k puts))
          (put_all-IsHeld content k false no_blobs puts separate (refl, refl)))
