-- ===== src/Storage/CaBundleCache.antt =====
-- src/storage/ca-bundle-cache.ts and src/storage/ca-bundle-source.ts: where the bundle of the
-- authority's keys comes from. The signature check of src/storage/bundle-canonical.ts and the transport
-- of src/storage/notme-bundle-fetcher.ts are arguments. The module-level cache is a state.
pub mod Trust
use cloister.Prelude.{
  ℕ, ◌+◌, ◌-◌, ◌*◌, ◌/◌, String, Bool, true, false, not, ◌&&◌, ◌||◌, Option, none, some, List, [],
  ◌∷◌, ltb, is_some, or_else, if◌then◌else◌,
}
use cloister.Prelude.Keys.{◌==◌, nat_eq, string_eq, option_eq}
use cloister.Prelude.Results.{Result, ok, err}
use cloister.Prelude.Chars.{Parsed, nan, minus, plus, parse_int, infinite_from}
use cloister.Routes.LeaseGate.{Env, is_truthy}

-- `keys` by key id, one entry for each. An epoch below 0 is no epoch of the model.
pub record CaBundle : Type 0 where
  pub epoch : ℕ
  pub seqno : ℕ
  pub keys : List (String × String)
  pub key_id : String
  pub prev_key_id : Option String
  pub issued_at : ℕ
  pub signature : String

-- What `fetcher()` does: it throws, answers `null`, or answers a bundle.
pub data Fetched : Type 0 where
  fetch_threw fetch_null : Fetched
  fetched : CaBundle → Fetched

abbrev pub bundle_refresh_ms : ℕ
bundle_refresh_ms = 4 * 60 * 1000

pub record CacheEntry : Type 0 where
  pub bundle : CaBundle
  pub fetched_at_ms : ℕ

abbrev pub Cache : Type 0
Cache = Option CacheEntry

-- Why there is no bundle.
pub data CaUnavailable : Type 0 where
  returned_null threw signature_failed no_trust_anchor : CaUnavailable

pub record GetBundleOptions : Type 0 where
  pub refresh_ms : Option ℕ
  pub root_pubkey : Option String

-- `nowMs - fetchedAtMs < refreshMs`, also where the clock went back.
unfoldable pub is_fresh : ℕ → ℕ → CacheEntry → Bool
is_fresh now_ms refresh_ms entry = ltb now_ms (entry.fetched_at_ms + refresh_ms)

abbrev pub from_fetcher : Fetched → Result CaUnavailable CaBundle
from_fetcher fetch_threw = err threw
from_fetcher fetch_null = err returned_null
from_fetcher (fetched bundle) = ok bundle

-- The check of the signature, where a root key is given.
unfoldable pub checked :
    (CaBundle → String → Bool) → Option String → CaBundle → Result CaUnavailable CaBundle
checked verify_bundle_signature none bundle = ok bundle
checked verify_bundle_signature (some root_pubkey) bundle =
    if root_pubkey == ""
    then ok bundle
    else if verify_bundle_signature bundle root_pubkey
    then ok bundle
    else err signature_failed

-- `verify_bundle_signature` is `verifyBundleSignature`. The argument `fetch` is what the fetcher would
-- answer now; it is called only where the cache does not serve.
module _ (verify_bundle_signature : CaBundle → String → Bool) where
  unfoldable pub refetch :
      Cache → Fetched → ℕ → Option String → Cache × Result CaUnavailable CaBundle
  refetch cache fetch now_ms root_pubkey = elim (from_fetcher fetch) [
    | err why ↦ (cache, err why)
    | ok bundle ↦ elim (checked verify_bundle_signature root_pubkey bundle) [
      | err why ↦ (cache, err why)
      | ok next ↦ (some (record { bundle = next; fetched_at_ms = now_ms }), ok next)
    ]
  ]

  unfoldable pub get_ca_bundle :
      Cache → Fetched → ℕ → GetBundleOptions → Cache × Result CaUnavailable CaBundle
  unfolding is_fresh
  get_ca_bundle none fetch now_ms options = refetch none fetch now_ms options.root_pubkey
  get_ca_bundle (some entry) fetch now_ms options =
      if is_fresh now_ms (or_else options.refresh_ms bundle_refresh_ms) entry
      then (some entry, ok entry.bundle)
      else refetch (some entry) fetch now_ms options.root_pubkey

-- `certEpoch === bundle.epoch - 1` is `certEpoch + 1 === bundle.epoch`.
unfoldable pub is_cert_epoch_current : ℕ → CaBundle → Bool
is_cert_epoch_current cert_epoch bundle =
    if cert_epoch == bundle.epoch
    then true
    else is_some bundle.prev_key_id && cert_epoch + 1 == bundle.epoch

-- A negative epoch, which no certificate has, counts as 0 here.
abbrev pub dev_epoch : Parsed → ℕ
dev_epoch nan = 1
dev_epoch (minus n) = 0
dev_epoch (plus n) = if ltb n infinite_from then n else 1

-- `Date.now()` is the third argument.
unfoldable pub dev_ca_bundle : Env → ℕ → Option CaBundle
dev_ca_bundle env now_ms =
    if not (env.cloister_mode == some "dev") || not (is_truthy env.dev_ca_master)
    then none
    else some (record {
      epoch = dev_epoch (parse_int (or_else env.dev_ca_epoch "1"));
      seqno = 1;
      keys = ("active", or_else env.dev_ca_master "") ∷ [];
      key_id = "active";
      prev_key_id = none;
      issued_at = now_ms / 1000;
      signature = "";
    })

unfoldable pub resolve_ca_bundle :
    (CaBundle → String → Bool) → Env → Cache → Fetched → ℕ → Cache × Result CaUnavailable CaBundle
resolve_ca_bundle verify_bundle_signature env cache fetch now_ms = elim (dev_ca_bundle env now_ms) [
  | some dev ↦ (cache, ok dev)
  | none ↦
      if not (is_truthy env.interlace_root_pubkey)
      then (cache, err no_trust_anchor)
      else get_ca_bundle verify_bundle_signature cache fetch now_ms
          (record { refresh_ms = none; root_pubkey = env.interlace_root_pubkey })
]
