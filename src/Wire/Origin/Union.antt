-- ===== src/Wire/Origin/Union.antt =====
-- src/wire/origin.ts: what a union keeps, and what it can attest.
use cloister.Prelude.{
  ◌≡◌, refl, sym, ap, ◌∙◌, String, Bool, false, ◌&&◌, some, List, [], ◌∷◌, ◌++◌, map, arith, All,
  Bool-cases, inl, inr, if◌then◌else◌,
}
use cloister.Prelude.Keys.{◌==◌, ==_iff, string_eq}
use cloister.Prelude.Text.{◌&◌}
use cloister.Prelude.Chars.{cut_at}
use cloister.Prelude.Lines.{Lacks, cut_at-join}
use cloister.Prelude.Sort.{insert, sort}
use cloister.Table.{upsert}
use cloister.Wire.Origin.{
  OriginEntry, OriginSet, origin_key, origin_le, collect, collect_all, union_origins, every,
  is_vouched, derive_confidence, declared_origin, origin_attested, origin_asserted, origin_unknown,
}

-- A URI without U+0000, which every URI is.
abbrev pub IsPlain : OriginEntry → Type 0
IsPlain entry = Lacks 0 entry.uri

some-injective : {p q : String × String} → some p ≡ some q → p ≡ q
some-injective h = cc

-- The key tells the entries apart.
origin_key-injective :
    (a b : OriginEntry) → IsPlain a → IsPlain b → origin_key a ≡ origin_key b → a ≡ b
origin_key-injective a b pa pb h =
    ap (λ p. record { uri = p.0; vouched_by = p.1 })
      (some-injective (
        sym (cut_at-join 0 "\0" a.uri a.vouched_by refl pa)
        ∙ ap (cut_at 0) h
        ∙ cut_at-join 0 "\0" b.uri b.vouched_by refl pb))

upsert-Plain :
    (entry : OriginEntry) (seen : OriginSet)
    → IsPlain entry
    → All IsPlain seen
    → All IsPlain (upsert origin_key entry seen)
unfolding upsert
upsert-Plain entry [] plain h = (plain, tt)
upsert-Plain entry (first ∷ seen) plain h =
    elim (Bool-cases (origin_key first == origin_key entry)) [
      | inl same ↦ rw same (plain, h.1)
      | inr other ↦ rw other (h.0, upsert-Plain entry seen plain h.1)
    ]

-- All the entries of the sets.
abbrev pub flatten : List OriginSet → OriginSet
flatten [] = []
flatten (set ∷ sets) = set ++ flatten sets

module _ (p : OriginEntry → Bool) where
  every-upsert :
      (entry : OriginEntry) (seen : OriginSet)
      → IsPlain entry
      → All IsPlain seen
      → every p (upsert origin_key entry seen) ≡ (p entry && every p seen)
  unfolding every upsert
  every-upsert entry [] plain h = refl
  every-upsert entry (first ∷ seen) plain h =
      elim (Bool-cases (origin_key first == origin_key entry)) [
        | inl same ↦
            let e =
              origin_key-injective first entry h.0 plain
                ((==_iff (origin_key first) (origin_key entry)).0 same) in
            rw (same, e) (ground arith)
        | inr other ↦ rw (other, every-upsert entry seen plain h.1) (ground arith)
      ]

  every-collect :
      (seen set : OriginSet)
      → All IsPlain seen
      → All IsPlain set
      → (every p (collect seen set) ≡ (every p seen && every p set))
        × All IsPlain (collect seen set)
  unfolding every collect
  every-collect seen [] h k = (ground arith, h)
  every-collect seen (entry ∷ set) h k =
      let (rest, plain) =
        every-collect (upsert origin_key entry seen) set (upsert-Plain entry seen k.0 h) k.1 in
      (rest ∙ rw (every-upsert entry seen k.0 h) (ground arith), plain)

  every-insert :
      (x : OriginEntry) (xs : OriginSet) → every p (insert origin_le x xs) ≡ (p x && every p xs)
  unfolding every insert
  every-insert x [] = refl
  every-insert x (y ∷ ys) = elim (Bool-cases (origin_le x y)) [
    | inl e ↦ rw e refl
    | inr e ↦ rw (e, every-insert x ys) (ground arith)
  ]

  every-sort : (xs : OriginSet) → every p (sort origin_le xs) ≡ every p xs
  unfolding every sort
  every-sort [] = refl
  every-sort (x ∷ xs) = rw (every-insert x (sort origin_le xs), every-sort xs) refl

  every-append : (xs ys : OriginSet) → every p (xs ++ ys) ≡ (every p xs && every p ys)
  unfolding every
  every-append [] ys = refl
  every-append (x ∷ xs) ys = rw (every-append xs ys) (ground arith)

  every-collect_all :
      (seen : OriginSet) (sets : List OriginSet)
      → All IsPlain seen
      → All (All IsPlain) sets
      → every p (collect_all seen sets) ≡ (every p seen && every p (flatten sets))
  unfolding every collect_all
  every-collect_all seen [] h k = ground arith
  every-collect_all seen (set ∷ sets) h k =
      let (kept, plain) = every-collect seen set h k.0 in
      every-collect_all (collect seen set) sets plain k.1
      ∙ rw (kept, every-append set (flatten sets)) (ground arith)

  -- Where no URI holds U+0000, a test holds of every entry of a union exactly if it holds of every
  -- entry of every set: the union loses no entry, adds none and changes none.
  pub every-union :
      (sets : List OriginSet)
      → All (All IsPlain) sets
      → every p (union_origins sets) ≡ every p (flatten sets)
  unfolding union_origins every
  every-union sets h = every-sort (collect_all [] sets) ∙ every-collect_all [] sets tt h

-- The confidence by two tests of every entry.
confidence_lem :
    (set : OriginSet) (trusted : String → Bool)
    → derive_confidence set trusted ≡ (
        if every (λ entry. false) set
        then origin_unknown
        else if every (is_vouched trusted) set
        then origin_attested
        else origin_asserted)
unfolding derive_confidence every
confidence_lem [] trusted = refl
confidence_lem (entry ∷ set) trusted = refl

-- Where no URI holds U+0000, the confidence of a union is that of all the entries of its sets together:
-- no entry of any set is left out of the judgement, so one entry that is unvouched or untrusted
-- keeps the union from being attested, whatever it is united with.
pub derive_confidence-union :
    (sets : List OriginSet) (trusted : String → Bool)
    → All (All IsPlain) sets
    → derive_confidence (union_origins sets) trusted ≡ derive_confidence (flatten sets) trusted
derive_confidence-union sets trusted h =
    confidence_lem (union_origins sets) trusted
    ∙ rw (every-union (λ entry. false) sets h, every-union (is_vouched trusted) sets h)
        (sym (confidence_lem (flatten sets) trusted))

declared-Plain :
    (uris : List String) (peer_fp : String)
    → All (Lacks 0) uris
    → All IsPlain (map (λ uri. declared_origin uri peer_fp) uris)
declared-Plain [] peer_fp h = tt
declared-Plain (uri ∷ uris) peer_fp h = (h.0, declared-Plain uris peer_fp h.1)

first_untrusted :
    (entry : OriginEntry) (set : OriginSet) (trusted : String → Bool)
    → trusted entry.vouched_by ≡ false
    → derive_confidence (entry ∷ set) trusted ≡ origin_asserted
unfolding derive_confidence every
first_untrusted entry set trusted h = ground (arith, h)

-- What a caller declares is never attested to an evaluator that does not trust the caller itself: it is
-- unknown if nothing was declared, and asserted otherwise, however trusted the declared sources are.
pub declared_never_attested :
    (uris : List String) (peer_fp : String) (trusted : String → Bool)
    → All (Lacks 0) uris
    → trusted ("interlace:peer/" & peer_fp) ≡ false
    → derive_confidence (union_origins (map (λ uri. declared_origin uri peer_fp) uris ∷ [])) trusted
      ≡ elim uris [ [] ↦ origin_unknown | uri ∷ rest ↦ origin_asserted ]
unfolding derive_confidence
declared_never_attested [] peer_fp trusted plain h =
    derive_confidence-union ([] ∷ []) trusted (tt, tt)
declared_never_attested (uri ∷ uris) peer_fp trusted plain h =
    derive_confidence-union (map (λ uri. declared_origin uri peer_fp) (uri ∷ uris) ∷ []) trusted
      (declared-Plain (uri ∷ uris) peer_fp plain, tt)
    ∙ first_untrusted (declared_origin uri peer_fp) _ trusted h
