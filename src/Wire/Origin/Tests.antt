-- ===== src/Wire/Origin/Tests.antt =====
-- Sets of origins.
use cloister.Prelude.{◌≡◌, refl, String, Bool, none, some, [], ◌∷◌}
use cloister.Prelude.Keys.{◌==◌, string_eq}
use cloister.Prelude.Text.{◌&◌}
use cloister.Table.{upsert}
use cloister.Prelude.Sort.{insert, sort}
use cloister.Wire.Origin.{
  OriginSet, cloister_authority, fetched_origin, declared_origin, unvouched_origin, collect,
  collect_all, union_origins, every, derive_confidence, origin_asserted, origin_attested,
  origin_unknown, json_entries, serialize_origins, origins_digest, both_texts, other_item,
  malformed, array, parse_origins,
}
use cloister.Wire.Origin.Union.{derive_confidence-union}

abbrev seen : OriginSet
seen = fetched_origin "u:b" ∷ fetched_origin "u:a" ∷ []

abbrev claimed : OriginSet
claimed = declared_origin "u:a" "p1" ∷ unvouched_origin "u:c" ∷ fetched_origin "u:a" ∷ []

abbrev trusts_cloister : String → Bool
trusts_cloister authority = authority == cloister_authority

-- A claim and a fetch of one URI are two entries; a fetch that both sets hold is one.
merged :
    union_origins (seen ∷ claimed ∷ [])
    ≡ fetched_origin "u:a"
      ∷ declared_origin "u:a" "p1"
      ∷ fetched_origin "u:b"
      ∷ unvouched_origin "u:c"
      ∷ []
unfolding union_origins collect_all collect upsert sort insert
merged = refl

fetched_only : derive_confidence seen trusts_cloister ≡ origin_attested
unfolding derive_confidence every
fetched_only = refl

nothing_seen : derive_confidence [] trusts_cloister ≡ origin_unknown
unfolding derive_confidence
nothing_seen = refl

-- Text that is quoted as it is.
abbrev quoted : String → String
quoted s = "\"" & s & "\""

stored_form :
    serialize_origins quoted (seen)
    ≡ "[{\"uri\":\"u:b\",\"vouchedBy\":\"cloister/lease-gate\"},{\"uri\":\"u:a\",\"vouchedBy\":\"cloister/lease-gate\"}]"
unfolding serialize_origins json_entries
stored_form = refl

empty_has_none : origins_digest quoted (λ s. 1 ∷ []) [] ≡ none
unfolding origins_digest
empty_has_none = refl

not_json : parse_origins (λ s. malformed) (some "{") ≡ []
unfolding parse_origins
not_json = refl

items_kept :
    parse_origins (λ s. array (other_item ∷ both_texts "u" "" ∷ [])) (some "[]")
    ≡ unvouched_origin "u" ∷ []
unfolding parse_origins union_origins collect_all collect upsert sort insert
items_kept = refl

derive_confidence-union_example :
    derive_confidence (union_origins (seen ∷ claimed ∷ [])) trusts_cloister ≡ origin_asserted
unfolding derive_confidence every
derive_confidence-union_example = derive_confidence-union (seen ∷ claimed ∷ []) trusts_cloister (
  ((refl, (refl, (refl, tt))), ((refl, (refl, (refl, tt))), tt)),
  (
    ((refl, (refl, (refl, tt))), ((refl, (refl, (refl, tt))), ((refl, (refl, (refl, tt))), tt))),
    tt,
  ),
)
