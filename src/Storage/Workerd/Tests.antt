-- ===== src/Storage/Workerd/Tests.antt =====
-- A store with chunks of two bytes.
use cloister.Prelude.{
  ℕ, ◌≡◌, refl, String, true, false, none, some, List, [], ◌∷◌, leb, length, if◌then◌else◌, arith,
}
use cloister.Prelude.Keys.{◌==◌, string_eq}
use cloister.Prelude.Results.{ok, err}
use cloister.Table.{select, find, update, insert_or_ignore, HasDistinctKeys}
use cloister.Storage.Workerd.Refs.{
  Ref, ref_name, hex_digits, is_digest, digest_of, compare_and_set, cas,
}
use cloister.Storage.Workerd.Swap.{cas_lem}
use cloister.Storage.Workerd.{no_blobs, get, has, storage_key, put}
use cloister.Storage.Workerd.Contents.{Put, put_all, get-put_all}

-- Digests that tell the two contents of the test apart.
abbrev hash : List ℕ → String
hash bytes = if leb (length bytes) 2 then "small" else "large"

abbrev content : String → List ℕ
content d = if d == "small" then 7 ∷ [] else 1 ∷ 2 ∷ 3 ∷ []

-- A large content, a small one under a key of the caller, and a refused key.
abbrev puts : List (Put hash hash 2)
puts = (1 ∷ 2 ∷ 3 ∷ [], none) ∷ (7 ∷ [], some "small") ∷ (1 ∷ 2 ∷ 3 ∷ [], some "other") ∷ []

refused :
    (put hash hash 2 (7 ∷ []) (some "k") no_blobs)
    ≡ (no_blobs, err "BlobStore.put: digest mismatch — key=k sha256(body)=small blake3(body)=small")
unfolding put storage_key
refused = refl

get-put_all_example :
    (get "large" (put_all hash hash 2 no_blobs puts) ≡ some (1 ∷ 2 ∷ 3 ∷ []))
    × (has "large" (put_all hash hash 2 no_blobs puts) ≡ true)
unfolding storage_key
get-put_all_example =
    get-put_all hash hash 2 content "large" puts (omega arith)
      ((refl, refl), ((refl, refl), ((refl, refl), tt)))

abbrev digest_a : String
digest_a = "aaaaaaaaaaaaaaaaaaaaaaaaaaaaaaaaaaaaaaaaaaaaaaaaaaaaaaaaaaaaaaaa"

abbrev digest_b : String
digest_b = "bbbbbbbbbbbbbbbbbbbbbbbbbbbbbbbbbbbbbbbbbbbbbbbbbbbbbbbbbbbbbbbb"

abbrev refs : List Ref
refs = record { name = "head"; digest = digest_a } ∷ []

moved :
    cas refs "head" (some digest_a) digest_b
    ≡ ok (record { name = "head"; digest = digest_b } ∷ [], true)
unfolding cas is_digest hex_digits compare_and_set update select
moved = refl

held_back : cas refs "head" none digest_b ≡ ok (refs, false)
unfolding cas is_digest hex_digits compare_and_set insert_or_ignore find
held_back = refl

no_digest : cas refs "head" none "x" ≡ err "refStore.cas: 'next' is not a valid digest: x"
unfolding cas is_digest hex_digits
no_digest = refl

cas_example :
    (refs' : List Ref) × (cas refs "head" (some digest_b) digest_a ≡ ok (refs', false))
    × ((other : String)
        → digest_of (find ref_name other refs') ≡ digest_of (find ref_name other refs))
    × HasDistinctKeys ref_name refs'
unfolding is_digest hex_digits find
cas_example = cas_lem refs "head" (some digest_b) digest_a (refl, tt) refl
