-- ===== src/Routes/BeadCreate/Origins.antt =====
-- src/routes/bead-create-orchestrator.ts: `buildContentOrigins`.
use cloister.Prelude.{String, not, Option, List, [], ◌∷◌, length, ltb, or_else, if◌then◌else◌, map}
use cloister.Prelude.Keys.{◌==◌, string_eq}
use cloister.Prelude.Results.{Result, ok, err, ◌>>◌, guard}
use cloister.Prelude.Text.{◌&◌, decimal}
use cloister.Wire.Origin.{OriginSet, declared_origin, union_origins}
use cloister.Routes.BeadCreate.Content.{
  Declared, text, other_value, max_declared_origins, max_origin_uri_length, utf16_length,
}

-- `raw.filter(...)`: the texts that are not empty
unfoldable pub declared_texts : List Declared → List String
declared_texts [] = []
declared_texts (text uri ∷ raw) = if uri == "" then declared_texts raw else uri ∷ declared_texts raw
declared_texts (other_value ∷ raw) = declared_texts raw

abbrev pub over_length : String → String
over_length uri =
    "bead_create: a declared origin is "
    & decimal (utf16_length uri)
    & " chars, over the "
    & decimal max_origin_uri_length
    & " cap (threat model §21.5)."

-- The loop over the lengths.
unfoldable pub check_lengths : List String → Result String (Unit {0})
check_lengths [] = ok tt
check_lengths (uri ∷ uris) =
    let rest = check_lengths uris in
    if ltb max_origin_uri_length (utf16_length uri) then err (over_length uri) else rest

-- `none` for an argument that is no array. The error is the message of the OriginBoundsError.
unfoldable pub build_content_origins : Option (List Declared) → String → Result String OriginSet
unfolding check_lengths declared_texts
build_content_origins origins peer_fp = do
  let raw = or_else origins []
  guard (not (ltb max_declared_origins (length raw))) (
      "bead_create: "
      & decimal (length raw)
      & " declared origins exceeds the "
      & decimal max_declared_origins
      & " cap (threat model §21.5). Refused rather than truncated — keeping the first "
      & decimal max_declared_origins
      & " would record a provenance claim narrower than the one made.")
  check_lengths (declared_texts raw)
  ok (union_origins (map (λ uri. declared_origin uri peer_fp) (declared_texts raw) ∷ []))
