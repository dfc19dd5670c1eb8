-- ===== src/Routes/BeadCreate/Honesty.antt =====
-- src/routes/bead-create-orchestrator.ts: what a caller's declaration can and cannot obtain.
use cloister.Prelude.{
  ◌≤◌, ◌≡◌, refl, sym, ap, subst, ◌∙◌, String, Bool, false, not, Option, List, [], ◌∷◌, arith,
  length, ltb, or_else, All, map, Bool-cases, inl, inr,
}
use cloister.Prelude.Text.{◌&◌}
use cloister.Prelude.Lines.{Lacks}
use cloister.Prelude.Results.{ok, err, guard-ok, then-ok, ok-injective, ok≢err}
use cloister.Wire.Origin.{
  OriginSet, declared_origin, union_origins, derive_confidence, may_attest_fully,
}
use cloister.Wire.Origin.Union.{declared_never_attested}
use cloister.Routes.BeadCreate.Content.{
  Declared, max_declared_origins, max_origin_uri_length, utf16_length,
}
use cloister.Routes.BeadCreate.Origins.{
  declared_texts, over_length, check_lengths, build_content_origins,
}

lengths_bounded :
    (uris : List String)
    → check_lengths uris ≡ ok tt
    → All (λ uri. utf16_length uri ≤ max_origin_uri_length) uris
unfolding check_lengths
lengths_bounded [] h = tt
lengths_bounded (uri ∷ uris) h = elim (Bool-cases (ltb max_origin_uri_length (utf16_length uri))) [
  | inl long ↦
      let refused : check_lengths (uri ∷ uris) ≡ err (over_length uri) = rw long refl in
      absurd (ok≢err (sym h ∙ refused))
  | inr short ↦ (ground arith, lengths_bounded uris (sym (rw short refl) ∙ h))
]

declared_confidence :
    (uris : List String) (peer_fp : String) (trusted : String → Bool)
    → All (Lacks 0) uris
    → trusted ("interlace:peer/" & peer_fp) ≡ false
    → may_attest_fully (
        derive_confidence
          (union_origins (map (λ uri. declared_origin uri peer_fp) uris ∷ []))
          trusted)
      ≡ false
unfolding may_attest_fully
declared_confidence [] peer_fp trusted plain h =
    ap may_attest_fully (declared_never_attested [] peer_fp trusted plain h)
declared_confidence (uri ∷ uris) peer_fp trusted plain h =
    ap may_attest_fully (declared_never_attested (uri ∷ uris) peer_fp trusted plain h)

-- A declaration that is accepted has at most 64 items, malformed ones counted, each text of at most 2048
-- units; and where no URI holds U+0000, it is never recorded as fully attested for an evaluator that
-- does not trust the declaring peer, whatever it declares and whichever other authorities are trusted.
pub build_content_origins_lem :
    (origins : Option (List Declared)) (peer_fp : String) (trusted : String → Bool)
    (set : OriginSet)
    → build_content_origins origins peer_fp ≡ ok set
    → All (Lacks 0) (declared_texts (or_else origins []))
    → trusted ("interlace:peer/" & peer_fp) ≡ false
    → (length (or_else origins []) ≤ max_declared_origins)
      × All (λ uri. utf16_length uri ≤ max_origin_uri_length) (declared_texts (or_else origins []))
      × (may_attest_fully (derive_confidence set trusted) ≡ false)
unfolding build_content_origins
build_content_origins_lem origins peer_fp trusted set h plain untrusted =
    let raw : List Declared = or_else origins [] in
    let (few, h₁) = guard-ok (not (ltb max_declared_origins (length raw))) _ h in
    let (checked, made) = then-ok (check_lengths (declared_texts raw)) h₁ in
    (
      ground arith,
      lengths_bounded (declared_texts raw) checked,
      subst (λ s. may_attest_fully (derive_confidence s trusted) ≡ false) (ok-injective made)
          (declared_confidence (declared_texts raw) peer_fp trusted plain untrusted),
    )
