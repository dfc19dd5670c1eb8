-- ===== src/Storage/RegistryMembership.antt =====
-- src/storage/registry-membership.ts: which repository may read which digest.
pub mod Isolation
use cloister.Prelude.{
  ℕ, ◌≡◌, ◌↔◌, String, Bool, true, false, ◌&&◌, Option, none, some, List, map, arith, if◌then◌else◌,
}
use cloister.Prelude.Keys.{Eq, ◌==◌, string_eq, pair_eq}
use cloister.Prelude.Sort.{sort}
use cloister.Table.{find, upsert, select, exists}
use cloister.Storage.RegistryTags.{text_le, distinct}

pub data MembershipKind : Type 0 where
  blob manifest : MembershipKind

abbrev pub kind_beq : MembershipKind → MembershipKind → Bool
kind_beq blob blob = true
kind_beq manifest manifest = true
kind_beq blob manifest = false
kind_beq manifest blob = false

pub kind_beq_iff : (a b : MembershipKind) → (kind_beq a b ≡ true) ↔ (a ≡ b)
kind_beq_iff a b = ground arith

instance abbrev pub kind_eq : Eq MembershipKind
kind_eq = record { beq = kind_beq; beq_iff = kind_beq_iff }

pub record MembershipRow : Type 0 where
  pub repo : String
  pub digest : String
  pub kind : MembershipKind
  pub recorded_at : ℕ
  pub recorded_by : Option String

abbrev pub Memberships : Type 0
Memberships = List MembershipRow

-- PRIMARY KEY (repo, digest, kind)
abbrev pub MembershipKey : Type 0
MembershipKey = String × (String × MembershipKind)

abbrev pub membership_key : MembershipRow → MembershipKey
membership_key r = (r.repo, (r.digest, r.kind))

unfoldable pub record_membership :
    Memberships → String → String → MembershipKind → ℕ → Option String → Memberships
record_membership sql repo digest kind now_ms peer_fp =
    upsert membership_key
      (record {
        repo = repo;
        digest = digest;
        kind = kind;
        recorded_at = now_ms;
        recorded_by = peer_fp;
      })
      sql

unfoldable pub has_membership : Memberships → String → String → MembershipKind → Bool
has_membership sql repo digest kind = exists (λ r. membership_key r == (repo, (digest, kind))) sql

unfoldable pub list_repos_with_membership : Memberships → String → List String
list_repos_with_membership sql digest =
    sort text_le (distinct (map (λ r. r.repo) (select (λ r. r.digest == digest) sql)))
