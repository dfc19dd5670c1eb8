-- ===== src/Storage/ActorCaBundle/Archive.antt =====
-- Reading the archive back after its writes.
use mathlib.Core.Option
use mathlib.Core.List.{Perm}
use cloister.Prelude.{
  ℕ, ◌≡◌, refl, String, some, arith, if◌then◌else◌, leb, is_some, Option-cases, inl, inr,
}
use cloister.Prelude.Keys.{◌==◌, nat_eq}
use cloister.Prelude.Sort.{sort-perm, sort-IsSorted, IsSorted}
use cloister.Table.{find, HasDistinctKeys}
use cloister.Table.Laws.{find-upsert, find-update, upsert-HasDistinctKeys, update-HasDistinctKeys}
use cloister.Storage.ActorCaBundle.{
  ActorCaBundleEntry, Archive, epoch_key, upsert_actor_ca_bundle, get_actor_ca_bundle,
  list_actor_ca_bundle_epochs, attach_compromise_notice,
}

abbrev pub with_notice : String → ActorCaBundleEntry → ActorCaBundleEntry
with_notice notice r = record r { compromise_notice_b64u = some notice }

pub get-upsert :
    (sql : Archive) (row : ActorCaBundleEntry) (epoch : ℕ)
    → get_actor_ca_bundle (upsert_actor_ca_bundle sql row) epoch
      ≡ (if row.epoch == epoch then some row else get_actor_ca_bundle sql epoch)
unfolding get_actor_ca_bundle upsert_actor_ca_bundle
get-upsert sql row epoch = find-upsert epoch_key row epoch sql

-- Attaching a notice answers true exactly if the epoch is archived, puts the notice on that epoch's
-- entry, and changes no other epoch.
pub attach_compromise_notice_lem :
    (sql : Archive) (epoch : ℕ) (notice : String)
    → ((attach_compromise_notice sql epoch notice).1 ≡ is_some (get_actor_ca_bundle sql epoch))
      × ((j : ℕ)
          → get_actor_ca_bundle (attach_compromise_notice sql epoch notice).0 j ≡ (
              if epoch == j
              then Option.map (with_notice notice) (get_actor_ca_bundle sql j)
              else get_actor_ca_bundle sql j))
unfolding attach_compromise_notice get_actor_ca_bundle
attach_compromise_notice_lem sql epoch notice = elim (Option-cases (find epoch_key epoch sql)) [
  | inl e ↦ (ground arith, λ j. ground (arith, nat_eq.beq_iff epoch j))
  | inr (r, e) ↦ (
    ground arith,
    λ j.
        rw (e, attach_compromise_notice)
          (find-update epoch_key (with_notice notice) epoch j sql (λ s. refl)),
  )
]

-- The listing holds every entry once, the latest epoch first.
pub list_epochs_lem :
    (sql : Archive)
    → Perm (list_actor_ca_bundle_epochs sql) sql
      × IsSorted (λ a b. leb b.epoch a.epoch) (list_actor_ca_bundle_epochs sql)
unfolding list_actor_ca_bundle_epochs
list_epochs_lem sql =
    (sort-perm _ sql, sort-IsSorted _ (λ x y h. ground arith) (λ x y z h k. ground arith) sql)

pub upsert-HasDistinctEpochs :
    (sql : Archive) (row : ActorCaBundleEntry)
    → HasDistinctKeys epoch_key sql
    → HasDistinctKeys epoch_key (upsert_actor_ca_bundle sql row)
unfolding upsert_actor_ca_bundle
upsert-HasDistinctEpochs sql row = upsert-HasDistinctKeys epoch_key row sql

pub attach-HasDistinctEpochs :
    (sql : Archive) (epoch : ℕ) (notice : String)
    → HasDistinctKeys epoch_key sql
    → HasDistinctKeys epoch_key (attach_compromise_notice sql epoch notice).0
unfolding attach_compromise_notice
attach-HasDistinctEpochs sql epoch notice h = elim (Option-cases (get_actor_ca_bundle sql epoch)) [
  | inl e ↦ rw (e, attach_compromise_notice) h
  | inr (r, e) ↦
      rw (e, attach_compromise_notice)
        (update-HasDistinctKeys epoch_key epoch (with_notice notice) sql (λ s. refl) h)
]
