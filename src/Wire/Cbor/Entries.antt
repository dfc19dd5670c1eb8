-- ===== src/Wire/Cbor/Entries.antt =====
-- Maps whose keys come in order.
use cloister.Prelude.{
  ℕ, ◌-◌, ◌≡◌, refl, true, false, Option, some, List, [], ◌∷◌, ◌++◌, arith, length, take,
  length-append, take-append_left, drop-append_left,
}
use cloister.Prelude.Results.{ok}
use cloister.Prelude.Sort.{sort, insert}
use cloister.Wire.Cbor.{Entry, entry_le, has_duplicate}
use cloister.Wire.Cbor.Decode.{follows, read_bytes}

-- Each entry's key follows the one before it.
abbrev pub IsOrdered : Option (List ℕ) → List Entry → Type 0
IsOrdered prev [] = Unit
IsOrdered prev (e ∷ entries) = (follows prev e.0 ≡ true) × IsOrdered (some e.0) entries

insert-first :
    (e : Entry) (entries : List Entry)
    → IsOrdered (some e.0) entries
    → insert entry_le e entries ≡ e ∷ entries
unfolding insert entry_le
insert-first e [] h = refl
insert-first e (d ∷ entries) h = ground (arith, h.0)

pub sort-ordered :
    (prev : Option (List ℕ)) (entries : List Entry)
    → IsOrdered prev entries
    → sort entry_le entries ≡ entries
unfolding sort
sort-ordered prev [] h = refl
sort-ordered prev (e ∷ entries) h =
    rw (sort-ordered (some e.0) entries h.1) (insert-first e entries h.1)

pub ordered-has_duplicate :
    (prev : Option (List ℕ)) (entries : List Entry)
    → IsOrdered prev entries
    → has_duplicate entries ≡ false
unfolding has_duplicate
ordered-has_duplicate prev [] h = refl
ordered-has_duplicate prev (e ∷ []) h = refl
ordered-has_duplicate prev (e ∷ d ∷ entries) h =
    ground (arith, h.1.0, ordered-has_duplicate (some e.0) (d ∷ entries) h.1)

pub read_bytes_lem : (v rest : List ℕ) → read_bytes (length v) (v ++ rest) ≡ ok (v, rest)
unfolding read_bytes
read_bytes_lem v rest = rw (length-append, take-append_left, drop-append_left) (ground arith)

-- The bytes between two cursors.
pub take_between : (v rest : List ℕ) → take (length (v ++ rest) - length rest) (v ++ rest) ≡ v
take_between v rest =
    let e : length (v ++ rest) - length rest ≡ length v = omega (arith, length-append v rest) in
    rw e (take-append_left v rest)
