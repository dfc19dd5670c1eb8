-- ===== src/Storage/Workerd/Swap.antt =====
-- src/storage/workerd.ts: what `cas` compares and what it sets.
use mathlib.Core.Option
use cloister.Prelude.{
  ◌≡◌, refl, sym, ap, ◌∙◌, [], ◌∷◌, length, String, Bool, true, false, not, ◌&&◌, Option, none,
  some, List, arith, is_some, Bool-cases, inl, inr, if◌then◌else◌,
}
use cloister.Prelude.Keys.{◌==◌, ==_iff, nat_eq, string_eq, option_eq}
use cloister.Prelude.Results.{ok}
use cloister.Table.{select, find, update, insert_or_ignore, HasDistinctKeys}
use cloister.Table.Laws.{
  find-insert_or_ignore, find-update, insert_or_ignore-HasDistinctKeys, update-HasDistinctKeys,
}
use cloister.Storage.Workerd.Refs.{
  Ref, ref_name, is_digest, digest_of, set_digest_if, compare_and_set, cas,
}

select_free :
    (q : Ref → Bool) (name : String) (refs : List Ref)
    → find ref_name name refs ≡ none
    → select (λ r. r.name == name && q r) refs ≡ []
unfolding select find
select_free q name [] h = refl
select_free q name (r ∷ refs) h = ground (arith, select_free q name refs)

-- The update lists one row exactly if the name points to the expected digest.
updated_lem :
    (name expected : String) (refs : List Ref)
    → HasDistinctKeys ref_name refs
    → (length (select (λ r. r.name == name && r.digest == expected) refs) == 1)
      ≡ (digest_of (find ref_name name refs) == some expected)
unfolding select find
updated_lem name expected [] h = refl
updated_lem name expected (r ∷ refs) h = elim (Bool-cases (r.name == name)) [
  | inl same ↦
      let free = ap (λ k. find ref_name k refs) (sym ((==_iff r.name name).0 same)) ∙ h.0 in
      let rest = select_free (λ r. r.digest == expected) name refs free in
      elim (Bool-cases (r.digest == expected)) [
        | inl current ↦ rw (same, current, rest) refl
        | inr changed ↦ rw (same, changed, rest) refl
      ]
  | inr other ↦ rw other (updated_lem name expected refs h.1)
]

set_digest_if-name :
    (expected next : String) (r : Ref) → (set_digest_if expected next r).name ≡ r.name
set_digest_if-name expected next r = elim (Bool-cases (r.digest == expected)) [
  | inl e ↦ rw e refl
  | inr e ↦ rw e refl
]

set_found :
    (expected next : String) (o : Option Ref)
    → digest_of (Option.map (set_digest_if expected next) o)
      ≡ (if digest_of o == some expected then some next else digest_of o)
set_found expected next none = refl
set_found expected next (some r) = elim (Bool-cases (r.digest == expected)) [
  | inl e ↦ rw e refl
  | inr e ↦ rw e refl
]

absent_lem : (o : Option Ref) → not (is_some o) ≡ (digest_of o == none)
absent_lem none = refl
absent_lem (some r) = refl

new_or_old :
    (r : Ref) (same : Bool) (o o' : Option Ref)
    → (same ≡ true → o ≡ o')
    → digest_of (if same && not (is_some o') then some r else o')
      ≡ (if digest_of o == none && same then some r.digest else digest_of o')
new_or_old r false none o' e = refl
new_or_old r false (some s) o' e = refl
new_or_old r true none none e = refl
new_or_old r true none (some s') e = absurd (ground (arith, e refl))
new_or_old r true (some s) none e = absurd (ground (arith, e refl))
new_or_old r true (some s) (some s') e = refl

inserted :
    (refs : List Ref) (name next other : String)
    → digest_of (
        find ref_name other
          (insert_or_ignore ref_name (record { name = name; digest = next }) refs))
      ≡ (if digest_of (find ref_name name refs) == none && name == other
          then some next
          else digest_of (find ref_name other refs))
inserted refs name next other =
    ap digest_of (find-insert_or_ignore ref_name (record { name = name; digest = next }) other refs)
    ∙ new_or_old (record { name = name; digest = next }) (name == other) (find ref_name name refs)
        (find ref_name other refs)
        (λ same. ap (λ k. find ref_name k refs) ((==_iff name other).0 same))

updated :
    (refs : List Ref) (name expected next other : String)
    → digest_of (find ref_name other (update ref_name name (set_digest_if expected next) refs)) ≡ (
        if digest_of (find ref_name name refs) == some expected && name == other
        then some next
        else digest_of (find ref_name other refs))
updated refs name expected next other =
    ap digest_of (
      find-update ref_name (set_digest_if expected next) name other refs
        (set_digest_if-name expected next))
    ∙ elim (Bool-cases (name == other)) [
      | inl same ↦
          let moved = ap (λ k. find ref_name k refs) ((==_iff name other).0 same) in
          rw (same, moved) (set_found expected next (find ref_name other refs) ∙ ground arith)
      | inr different ↦ rw different (ground arith)
    ]

-- Where names are distinct and `next` is a digest: the call reports success exactly if the name pointed to
-- what the caller expected, which is no digest where it expects none; on success the name points to `next`,
-- on failure to what it did before, and no other name changes; and names stay distinct.
pub cas_lem :
    (refs : List Ref) (name : String) (expected : Option String) (next : String)
    → HasDistinctKeys ref_name refs
    → is_digest next ≡ true
    → let done = digest_of (find ref_name name refs) == expected in
      (refs' : List Ref) × (cas refs name expected next ≡ ok (refs', done))
      × ((other : String)
          → digest_of (find ref_name other refs')
            ≡ (if done && name == other then some next else digest_of (find ref_name other refs)))
      × HasDistinctKeys ref_name refs'
unfolding cas compare_and_set
cas_lem refs name none next h valid = (
  insert_or_ignore ref_name (record { name = name; digest = next }) refs,
  rw valid (
      ap (λ b. ok ((compare_and_set refs name none next).0, b))
        (absent_lem (find ref_name name refs))),
  inserted refs name next,
  insert_or_ignore-HasDistinctKeys ref_name (record { name = name; digest = next }) refs h,
)
cas_lem refs name (some expected) next h valid = (
  update ref_name name (set_digest_if expected next) refs,
  rw valid (
      ap (λ b. ok ((compare_and_set refs name (some expected) next).0, b))
        (updated_lem name expected refs h)),
  updated refs name expected next,
  update-HasDistinctKeys ref_name name (set_digest_if expected next) refs
      (set_digest_if-name expected next) h,
)
