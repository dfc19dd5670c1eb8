-- ===== src/Storage/Workerd/Chunks.antt =====
-- src/storage/workerd.ts: the rows of a split content, before and after they are written.
use mathlib.Core.List.{append_assoc, append-nil}
use cloister.Prelude.{
  ℕ, zero, suc, ◌+◌, ◌≤◌, ◌<◌, ◌≡◌, refl, sym, ap, ◌∙◌, String, Bool, true, false, none, List, [],
  ◌∷◌, ◌++◌, arith, All, leb, length, take, drop, take-drop, is_some, Bool-cases, inl, inr,
  length-drop,
}
use cloister.Prelude.Keys.{Eq, ◌==◌, ==_refl, ==_iff, nat_eq, string_eq, pair_eq}
use cloister.Prelude.Sort.{insert, sort}
use cloister.Table.{select, find, insert_or_ignore}
use cloister.Table.Laws.{select-append}
use cloister.Storage.Workerd.{Chunk, chunk_key, slices, insert_chunks, of_digest, seq_le, join}

module _ {ℓ κ} {R : Type ℓ} {K : Type κ} ⦃e : Eq K⦄ (key : R → K) where
  pub insert_held :
      (r : R) (t : List R) → is_some (find key (key r) t) ≡ true → insert_or_ignore key r t ≡ t
  unfolding find insert_or_ignore
  insert_held r [] h = ground (arith, h)
  insert_held r (s ∷ t) h = elim (Bool-cases (key s == key r)) [
    | inl same ↦ rw same refl
    | inr other ↦ rw other (ap (λ u. s ∷ u) (insert_held r t (rw other at h)))
  ]

  insert_new :
      (r : R) (t : List R) → find key (key r) t ≡ none → insert_or_ignore key r t ≡ t ++ r ∷ []
  unfolding find insert_or_ignore
  insert_new r [] h = refl
  insert_new r (s ∷ t) h = ground (arith, insert_new r t)

  select_other :
      (p : R → Bool) (r : R) (t : List R)
      → p r ≡ false
      → select p (insert_or_ignore key r t) ≡ select p t
  unfolding select insert_or_ignore
  select_other p r [] h = rw h refl
  select_other p r (s ∷ t) h = ground (arith, select_other p r t h)

  find_last : (r : R) (pre post : List R) → is_some (find key (key r) (pre ++ r ∷ post)) ≡ true
  unfolding find
  find_last r [] post = rw (==_refl (key r)) refl
  find_last r (s ∷ pre) post = ground (arith, find_last r pre post)

-- A row is looked for among the rows of its digest.
find-select :
    (d : String) (n : ℕ) (t : List Chunk)
    → find chunk_key (d, n) t ≡ find chunk_key (d, n) (select (of_digest d) t)
unfolding find select
find-select d n [] = refl
find-select d n (r ∷ t) = ground (arith, find-select d n t)

find_below :
    (d : String) (n : ℕ) (t : List Chunk) → All (λ r. r.seq < n) t → find chunk_key (d, n) t ≡ none
unfolding find
find_below d n [] h = refl
find_below d n (r ∷ t) h = ground (arith, find_below d n t h.1, h.0)

-- The rows of the parts.
abbrev pub numbered : String → ℕ → List (List ℕ) → List Chunk
numbered d seq [] = []
numbered d seq (part ∷ parts) =
    record { digest = d; seq = seq; bytes = part } ∷ numbered d (seq + 1) parts

All-below_next :
    (n : ℕ) (r : Chunk) (t : List Chunk)
    → All (λ s. s.seq < n) t
    → r.seq ≡ n
    → All (λ s. s.seq < n + 1) (t ++ r ∷ [])
All-below_next n r [] h e = (omega (arith, e), tt)
All-below_next n r (s ∷ t) h e = (omega (arith, h.0), All-below_next n r t h.1 e)

select_one : (d : String) (r : Chunk) → r.digest ≡ d → select (of_digest d) (r ∷ []) ≡ r ∷ []
unfolding select
select_one d r e = rw ((==_iff r.digest d).1 e) refl

-- New parts come after the rows that the digest has.
pub insert_chunks_new :
    (d : String) (seq : ℕ) (parts : List (List ℕ)) (t : List Chunk)
    → All (λ r. r.seq < seq) (select (of_digest d) t)
    → select (of_digest d) (insert_chunks d seq parts t)
      ≡ select (of_digest d) t ++ numbered d seq parts
unfolding insert_chunks
insert_chunks_new d seq [] t h = sym (append-nil (select (of_digest d) t))
insert_chunks_new d seq (part ∷ parts) t h =
    let r : Chunk = record { digest = d; seq = seq; bytes = part } in
    let t' = insert_or_ignore chunk_key r t in
    let free = find-select d seq t ∙ find_below d seq (select (of_digest d) t) h in
    let grown : select (of_digest d) t' ≡ select (of_digest d) t ++ r ∷ [] =
      ap (select (of_digest d)) (insert_new chunk_key r t free)
      ∙ select-append (of_digest d) t (r ∷ [])
      ∙ ap (λ u. select (of_digest d) t ++ u) (select_one d r refl) in
    insert_chunks_new d (seq + 1) parts t'
      (rw grown (All-below_next seq r (select (of_digest d) t) h refl))
    ∙ ap (λ u. u ++ numbered d (seq + 1) parts) grown
    ∙ append_assoc (select (of_digest d) t) (r ∷ []) (numbered d (seq + 1) parts)

-- Parts that are there already change nothing.
pub insert_chunks_again :
    (d : String) (seq : ℕ) (parts : List (List ℕ)) (t pre : List Chunk)
    → select (of_digest d) t ≡ pre ++ numbered d seq parts
    → insert_chunks d seq parts t ≡ t
unfolding insert_chunks
insert_chunks_again d seq [] t pre h = refl
insert_chunks_again d seq (part ∷ parts) t pre h =
    let r : Chunk = record { digest = d; seq = seq; bytes = part } in
    let held : is_some (find chunk_key (chunk_key r) t) ≡ true =
      ap is_some (find-select d seq t ∙ ap (find chunk_key (d, seq)) h)
      ∙ find_last chunk_key r pre (numbered d (seq + 1) parts) in
    ap (insert_chunks d (seq + 1) parts) (insert_held chunk_key r t held)
    ∙ insert_chunks_again d (seq + 1) parts t (pre ++ r ∷ [])
        (h ∙ sym (append_assoc pre (r ∷ []) (numbered d (seq + 1) parts)))

-- The rows of other digests stay.
pub insert_chunks_other :
    (d k : String) (seq : ℕ) (parts : List (List ℕ)) (t : List Chunk)
    → (d == k) ≡ false
    → select (of_digest k) (insert_chunks d seq parts t) ≡ select (of_digest k) t
unfolding insert_chunks
insert_chunks_other d k seq [] t h = refl
insert_chunks_other d k seq (part ∷ parts) t h =
    insert_chunks_other d k (seq + 1) parts _ h
    ∙ select_other chunk_key (of_digest k) (record { digest = d; seq = seq; bytes = part }) t h

pub sort-numbered :
    (d : String) (seq : ℕ) (parts : List (List ℕ))
    → sort seq_le (numbered d seq parts) ≡ numbered d seq parts
unfolding sort insert
sort-numbered d seq [] = refl
sort-numbered d seq (part ∷ []) = refl
sort-numbered d seq (part ∷ next ∷ parts) =
    let below : leb seq (seq + 1) ≡ true = ground arith in
    ap (insert seq_le (record { digest = d; seq = seq; bytes = part }))
      (sort-numbered d (seq + 1) (next ∷ parts))
    ∙ rw below refl

-- The slices of a content make it up again.
pub join-slices :
    (size fuel : ℕ) (d : String) (seq : ℕ) (bytes : List ℕ)
    → 1 ≤ size
    → length bytes ≤ fuel
    → join (numbered d seq (slices size fuel bytes)) ≡ bytes
unfolding join slices
join-slices size zero d seq [] h k = refl
join-slices size zero d seq (b ∷ bytes) h k = absurd (omega (arith, k))
join-slices size (suc fuel) d seq [] h k = refl
join-slices size (suc fuel) d seq (b ∷ bytes) h k =
    ap (λ u. take size (b ∷ bytes) ++ u)
      (join-slices size fuel d (seq + 1) (drop size (b ∷ bytes)) h
        (omega (arith, length-drop size (b ∷ bytes), h, k)))
    ∙ take-drop size (b ∷ bytes)
