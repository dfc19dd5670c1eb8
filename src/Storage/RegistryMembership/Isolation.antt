-- ===== src/Storage/RegistryMembership/Isolation.antt =====
-- Memberships against the pushes that recorded them.
use cloister.Prelude.{ℕ, ◌≡◌, String, ◌||◌, Option, List, [], ◌∷◌, arith}
use cloister.Prelude.Keys.{◌==◌, string_eq, pair_eq}
use cloister.Table.{exists}
use cloister.Table.Laws.{find-upsert, is_some-find}
use cloister.Storage.RegistryMembership.{
  MembershipKind, MembershipKey, MembershipRow, Memberships, kind_eq, membership_key,
  record_membership, has_membership,
}

-- Recording a membership gives its repository that digest under that kind, and gives or takes
-- nothing else: in particular no other repository.
pub has-record :
    (sql : Memberships) (repo digest : String) (kind : MembershipKind) (now_ms : ℕ)
    (peer_fp : Option String) (repo' digest' : String) (kind' : MembershipKind)
    → has_membership (record_membership sql repo digest kind now_ms peer_fp) repo' digest' kind' ≡ (
        ◌==◌ {K = MembershipKey} (repo, (digest, kind)) (repo', (digest', kind'))
        || has_membership sql repo' digest' kind')
unfolding has_membership record_membership
has-record sql repo digest kind now_ms peer_fp repo' digest' kind' =
    let k : MembershipKey = (repo', (digest', kind')) in
    let row : MembershipRow = record {
      repo = repo;
      digest = digest;
      kind = kind;
      recorded_at = now_ms;
      recorded_by = peer_fp;
    } in
    ground (
      arith,
      is_some-find membership_key k (record_membership sql repo digest kind now_ms peer_fp),
      is_some-find membership_key k sql,
      find-upsert membership_key row k sql,
    )

-- One push as the registry records it.
pub record Push : Type 0 where
  pub repo : String
  pub digest : String
  pub kind : MembershipKind
  pub now_ms : ℕ
  pub peer_fp : Option String

abbrev pub pushed : Push → MembershipKey
pushed p = (p.repo, (p.digest, p.kind))

pub record_all : Memberships → List Push → Memberships
record_all sql [] = sql
record_all sql (p ∷ rest) =
    record_all (record_membership sql p.repo p.digest p.kind p.now_ms p.peer_fp) rest

has-record_all :
    (sql : Memberships) (pushes : List Push) (repo digest : String) (kind : MembershipKind)
    → has_membership (record_all sql pushes) repo digest kind ≡ (
        has_membership sql repo digest kind
        || exists (λ p. pushed p == (repo, (digest, kind))) pushes)
unfolding record_all exists
has-record_all sql [] repo digest kind = ground arith
has-record_all sql (p ∷ rest) repo digest kind =
    rw
      (
        has-record_all (record_membership sql p.repo p.digest p.kind p.now_ms p.peer_fp) rest repo
            digest kind,
        has-record,
      )
      (ground arith)

-- From an empty index, a repository has a digest exactly if it pushed that digest under that kind.
pub has_iff_pushed :
    (pushes : List Push) (repo digest : String) (kind : MembershipKind)
    → has_membership (record_all [] pushes) repo digest kind
      ≡ exists (λ p. pushed p == (repo, (digest, kind))) pushes
unfolding has_membership exists
has_iff_pushed pushes repo digest kind = has-record_all [] pushes repo digest kind
