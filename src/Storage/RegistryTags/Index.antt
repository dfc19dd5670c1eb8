-- ===== src/Storage/RegistryTags/Index.antt =====
-- Lookups and listings of tags after an upsert.
use cloister.Prelude.{
  ℕ, ◌≡◌, ◌↔◌, refl, sym, ◌∙◌, String, true, ◌&&◌, ◌||◌, Option, none, some, List, [], ◌∷◌, map,
  arith, if◌then◌else◌, is_some, Bool-cases, inl, inr,
}
use cloister.Prelude.Keys.{◌==◌, string_eq, pair_eq}
use cloister.Prelude.Sort.{sort, insert}
use cloister.Table.{find, select, exists}
use cloister.Table.Laws.{find-upsert}
use cloister.Storage.RegistryTags.{
  RegistryTag, Tags, tag_key, upsert_tag, digest_of, get_manifest_digest_for_tag, text_le,
  list_tags_for_repo, member, distinct, list_repos,
}

-- After a tag is pointed at a digest, the lookup gives that digest for it, and every other tag of
-- every repository resolves as before.
pub get-upsert_tag :
    (sql : Tags) (repo tag digest : String) (now_ms : ℕ) (repo' tag' : String)
    → get_manifest_digest_for_tag (upsert_tag sql repo tag digest now_ms) repo' tag' ≡ (
        if repo == repo' && tag == tag'
        then some digest
        else get_manifest_digest_for_tag sql repo' tag')
unfolding get_manifest_digest_for_tag upsert_tag
get-upsert_tag sql repo tag digest now_ms repo' tag' =
    rw
      (find-upsert tag_key
        (record { repo = repo; tag = tag; manifest_digest = digest; created_at = now_ms })
        (repo', tag') sql)
      (ground arith)

member-insert :
    (a x : String) (xs : List String) → member a (insert text_le x xs) ≡ (x == a || member a xs)
unfolding member insert
member-insert a x [] = ground arith
member-insert a x (y ∷ ys) = ground (arith, member-insert a x ys)

member-sort : (a : String) (xs : List String) → member a (sort text_le xs) ≡ member a xs
unfolding member sort
member-sort a [] = refl
member-sort a (x ∷ xs) = rw member-insert (ground (arith, member-sort a xs))

member-distinct : (a : String) (xs : List String) → member a (distinct xs) ≡ member a xs
unfolding member distinct
member-distinct a [] = refl
member-distinct a (x ∷ xs) =
    ground (arith, member-distinct a xs, string_eq.beq_iff x a, member-distinct x xs)

member-tags :
    (sql : Tags) (repo tag : String)
    → member tag (map (λ r. r.tag) (select (λ r. r.repo == repo) sql))
      ≡ is_some (find tag_key (repo, tag) sql)
unfolding member select find
member-tags [] repo tag = refl
member-tags (r ∷ t) repo tag = ground (arith, member-tags t repo tag)

-- A repository's listing holds a tag exactly if the tag resolves.
pub listed_iff_resolves :
    (sql : Tags) (repo tag : String)
    → member tag (list_tags_for_repo sql repo) ≡ is_some (get_manifest_digest_for_tag sql repo tag)
unfolding list_tags_for_repo get_manifest_digest_for_tag
listed_iff_resolves sql repo tag =
    rw (member-sort, member-tags sql repo tag) (digests (find tag_key (repo, tag) sql))
  where
    digests : (o : Option RegistryTag) → is_some o ≡ is_some (digest_of o)
    digests none = refl
    digests (some r) = refl

member-repos :
    (sql : Tags) (repo : String)
    → member repo (map (λ r. r.repo) sql) ≡ exists (λ r. r.repo == repo) sql
unfolding member exists
member-repos [] repo = refl
member-repos (r ∷ t) repo = ground (arith, member-repos t repo)

abbrev tags_of : Tags → String → List String
tags_of sql repo = map (λ r. r.tag) (select (λ r. r.repo == repo) sql)

some_tag :
    (sql : Tags) (repo : String)
    → exists (λ r. r.repo == repo) sql ≡ true
    → (tag : String) × (member tag (tags_of sql repo) ≡ true)
unfolding exists member select
some_tag [] repo h = cc
some_tag (r ∷ t) repo h = elim (Bool-cases (r.repo == repo)) [
  | inl same ↦ (r.tag, ground (arith, string_eq.beq_iff r.tag r.tag))
  | inr other ↦ let (tag, m) = some_tag t repo (ground arith) in (tag, ground arith)
]

exists-of-member :
    (sql : Tags) (repo tag : String)
    → member tag (tags_of sql repo) ≡ true
    → exists (λ r. r.repo == repo) sql ≡ true
unfolding exists member select
exists-of-member [] repo tag h = cc
exists-of-member (r ∷ t) repo tag h = ground (arith, exists-of-member t repo tag)

-- The catalogue holds a repository exactly if some tag of it is listed.
pub catalogued_iff_tagged :
    (sql : Tags) (repo : String)
    → (member repo (list_repos sql) ≡ true)
      ↔ ((tag : String) × (member tag (list_tags_for_repo sql repo) ≡ true))
unfolding list_repos list_tags_for_repo
catalogued_iff_tagged sql repo =
    rw (member-sort, member-distinct, member-repos sql repo)
      (
        λ h. let (tag, m) = some_tag sql repo h in (tag, member-sort tag (tags_of sql repo) ∙ m),
        λ (tag, m). exists-of-member sql repo tag (sym (member-sort tag (tags_of sql repo)) ∙ m),
      )
