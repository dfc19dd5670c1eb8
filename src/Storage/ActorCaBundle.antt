-- ===== src/Storage/ActorCaBundle.antt =====
-- src/storage/actor-ca-bundle.ts: the archive of the actor's signing epochs.
pub mod Archive
use cloister.Prelude.{ℕ, String, Bool, true, false, Option, none, some, List, leb}
use cloister.Prelude.Keys.{nat_eq}
use cloister.Prelude.Sort.{sort}
use cloister.Table.{find, upsert, update}

pub data EpochStatus : Type 0 where
  active retired : EpochStatus

pub record ActorCaBundleEntry : Type 0 where
  pub epoch : ℕ
  pub signing_key_pubkey_b64u : String
  pub cert_der_b64u : Option String
  pub issued_at_ms : ℕ
  pub retired_at_ms : Option ℕ
  pub status : EpochStatus
  pub compromise_notice_b64u : Option String
  pub external_anchor_uri : Option String

abbrev pub Archive : Type 0
Archive = List ActorCaBundleEntry

abbrev pub epoch_key : ActorCaBundleEntry → ℕ
epoch_key r = r.epoch

unfoldable pub upsert_actor_ca_bundle : Archive → ActorCaBundleEntry → Archive
upsert_actor_ca_bundle sql row = upsert epoch_key row sql

unfoldable pub get_actor_ca_bundle : Archive → ℕ → Option ActorCaBundleEntry
get_actor_ca_bundle sql epoch = find epoch_key epoch sql

-- ORDER BY epoch DESC
unfoldable pub list_actor_ca_bundle_epochs : Archive → List ActorCaBundleEntry
list_actor_ca_bundle_epochs sql = sort (λ a b. leb b.epoch a.epoch) sql

-- The archive afterwards, and whether the epoch's row was there.
unfoldable pub attach_compromise_notice : Archive → ℕ → String → Archive × Bool
attach_compromise_notice sql compromised_epoch notice_b64u =
    elim (get_actor_ca_bundle sql compromised_epoch) [
      | none ↦ (sql, false)
      | some existing ↦ (
        update epoch_key compromised_epoch
            (λ r. record r { compromise_notice_b64u = some notice_b64u }) sql,
        true,
      )
    ]
