-- ===== src/Storage/RegistryTags.antt =====
-- src/storage/registry-tags.ts: the OCI tag index, (repo, tag) to manifest digest.
pub mod Index
use Prim.Native.String.{compare}
use Prim.Native.Nat.{Ordering}
use cloister.Prelude.{
  ℕ, String, Bool, true, false, Option, none, some, List, [], ◌∷◌, map, if◌then◌else◌,
}
use cloister.Prelude.Keys.{◌==◌, string_eq, pair_eq}
use cloister.Prelude.Sort.{sort}
use cloister.Table.{find, upsert, select}

pub record RegistryTag : Type 0 where
  pub repo : String
  pub tag : String
  pub manifest_digest : String
  pub created_at : ℕ

abbrev pub Tags : Type 0
Tags = List RegistryTag

-- PRIMARY KEY (repo, tag)
abbrev pub tag_key : RegistryTag → String × String
tag_key r = (r.repo, r.tag)

unfoldable pub upsert_tag : Tags → String → String → String → ℕ → Tags
upsert_tag sql repo tag digest now_ms =
    upsert tag_key
      (record { repo = repo; tag = tag; manifest_digest = digest; created_at = now_ms }) sql

abbrev pub digest_of : Option RegistryTag → Option String
digest_of none = none
digest_of (some r) = some r.manifest_digest

unfoldable pub get_manifest_digest_for_tag : Tags → String → String → Option String
get_manifest_digest_for_tag sql repo tag = digest_of (find tag_key (repo, tag) sql)

-- SQLite's default collation: the order of the UTF-8 bytes
abbrev pub text_le : String → String → Bool
text_le a b = elim (compare a b) [ Ordering.gt ↦ false | _ ↦ true ]

-- ORDER BY tag
unfoldable pub list_tags_for_repo : Tags → String → List String
list_tags_for_repo sql repo = sort text_le (map (λ r. r.tag) (select (λ r. r.repo == repo) sql))

unfoldable pub member : String → List String → Bool
member a [] = false
member a (x ∷ xs) = if x == a then true else member a xs

-- SELECT DISTINCT
unfoldable pub distinct : List String → List String
unfolding member
distinct [] = []
distinct (x ∷ xs) = let rest = distinct xs in if member x rest then rest else x ∷ rest

unfoldable pub list_repos : Tags → List String
list_repos sql = sort text_le (distinct (map (λ r. r.repo) sql))
