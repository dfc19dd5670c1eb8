-- ===== src/Storage/CaBundleCache/Trust.antt =====
-- The bundles that leave the cache: where they come from, and how old they are.
use mathlib.Core.List.{Mem, mem-cons_self, mem-cons_of_mem}
use cloister.Prelude.{
  ℕ, ◌+◌, ◌<◌, ◌≡◌, String, Bool, true, false, ◌&&◌, none, some, List, [], ◌∷◌, arith, Bool-cases,
  inl, inr, ltb, ◌||◌, if◌then◌else◌,
}
use cloister.Prelude.Keys.{◌==◌, string_eq, option_eq}
use cloister.Prelude.Results.{Result, ok, err}
use cloister.Routes.LeaseGate.{Env, is_truthy}
use cloister.Storage.CaBundleCache.{
  CaBundle, Fetched, fetch_threw, fetch_null, fetched, bundle_refresh_ms, CacheEntry, Cache,
  CaUnavailable, signature_failed, is_fresh, checked, refetch, get_ca_bundle, dev_ca_bundle,
  resolve_ca_bundle,
}

-- A call of `resolveCABundle`: what the authority would answer, and the time.
abbrev pub Call : Type 0
Call = Fetched × ℕ

-- The environment of a deployment that pins this key and has no development authority.
pub record Pins (env : Env) (root : String) : Type 0 where
  pub no_master : (env.cloister_mode == some "dev" && is_truthy env.dev_ca_master) ≡ false
  pub pinned : env.interlace_root_pubkey ≡ some root
  pub nonempty : (root == "") ≡ false

abbrev pub is_answered : Result CaUnavailable CaBundle → Bool
is_answered (ok bundle) = true
is_answered (err why) = false

abbrev pub holds_fresh : ℕ → Cache → Bool
holds_fresh now_ms none = false
holds_fresh now_ms (some entry) = ltb now_ms (entry.fetched_at_ms + bundle_refresh_ms)

module _ (verify_bundle_signature : CaBundle → String → Bool) (root : String) where
  -- The root key signed the bundle, and one of the calls fetched it at this time.
  abbrev pub Backed : List Call → CaBundle → ℕ → Type 0
  Backed calls bundle at =
      (verify_bundle_signature bundle root ≡ true) × Mem (fetched bundle, at) calls

  abbrev pub IsBacked : List Call → Cache → Type 0
  IsBacked calls none = Unit
  IsBacked calls (some entry) = Backed calls entry.bundle entry.fetched_at_ms

  -- An answer at a time: a bundle that is backed by a call less than the refresh interval before.
  abbrev pub IsGood : List Call → ℕ → Result CaUnavailable CaBundle → Type 0
  IsGood calls now_ms (err why) = Unit
  IsGood calls now_ms (ok bundle) =
      (at : ℕ) × Backed calls bundle at × (now_ms < at + bundle_refresh_ms)

  abbrev Outcome : List Call → ℕ → Cache × Result CaUnavailable CaBundle → Type 0
  Outcome calls now_ms after = IsBacked calls after.0 × IsGood calls now_ms after.1

  IsBacked-later :
      (call : Call) (calls : List Call) (cache : Cache)
      → IsBacked calls cache
      → IsBacked (call ∷ calls) cache
  IsBacked-later call calls none h = tt
  IsBacked-later call calls (some entry) h = (h.0, mem-cons_of_mem call h.1)

  refetch_fetched :
      (cache : Cache) (bundle : CaBundle) (now_ms : ℕ)
      → (root == "") ≡ false
      → refetch verify_bundle_signature cache (fetched bundle) now_ms (some root) ≡ (
          if verify_bundle_signature bundle root
          then (some (record { bundle = bundle; fetched_at_ms = now_ms }), ok bundle)
          else (cache, err signature_failed))
  unfolding refetch checked
  refetch_fetched cache bundle now_ms e = ground arith

  refetch_lem :
      (calls : List Call) (cache : Cache) (fetch : Fetched) (now_ms : ℕ)
      → (root == "") ≡ false
      → IsBacked calls cache
      → Outcome
          ((fetch, now_ms) ∷ calls)
          now_ms
          (refetch verify_bundle_signature cache fetch now_ms (some root))
  unfolding refetch
  refetch_lem calls cache fetch_threw now_ms e h = (IsBacked-later _ calls cache h, tt)
  refetch_lem calls cache fetch_null now_ms e h = (IsBacked-later _ calls cache h, tt)
  refetch_lem calls cache (fetched bundle) now_ms e h =
      elim (Bool-cases (verify_bundle_signature bundle root)) [
        | inl valid ↦
            rw (refetch_fetched cache bundle now_ms e, valid)
              ((valid, mem-cons_self), (now_ms, (valid, mem-cons_self), omega arith))
        | inr invalid ↦
            rw (refetch_fetched cache bundle now_ms e, invalid) (IsBacked-later _ calls cache h, tt)
      ]

  fresh_below :
      (now_ms refresh_ms : ℕ) (entry : CacheEntry)
      → is_fresh now_ms refresh_ms entry ≡ true
      → now_ms < entry.fetched_at_ms + refresh_ms
  unfolding is_fresh
  fresh_below now_ms refresh_ms entry h = ground arith

  get_lem :
      (calls : List Call) (cache : Cache) (fetch : Fetched) (now_ms : ℕ)
      → (root == "") ≡ false
      → IsBacked calls cache
      → Outcome ((fetch, now_ms) ∷ calls) now_ms (
          get_ca_bundle verify_bundle_signature cache fetch now_ms
            (record { refresh_ms = none; root_pubkey = some root }))
  unfolding get_ca_bundle
  get_lem calls none fetch now_ms e h = refetch_lem calls none fetch now_ms e h
  get_lem calls (some entry) fetch now_ms e h =
      elim (Bool-cases (is_fresh now_ms bundle_refresh_ms entry)) [
        | inl fresh ↦
            let kept = IsBacked-later (fetch, now_ms) calls (some entry) h in
            rw fresh
              (kept, (entry.fetched_at_ms, kept, fresh_below now_ms bundle_refresh_ms entry fresh))
        | inr stale ↦ rw stale (refetch_lem calls (some entry) fetch now_ms e h)
      ]

  resolve_pinned :
      (env : Env) (cache : Cache) (fetch : Fetched) (now_ms : ℕ)
      → Pins env root
      → resolve_ca_bundle verify_bundle_signature env cache fetch now_ms
        ≡ get_ca_bundle verify_bundle_signature cache fetch now_ms
            (record { refresh_ms = none; root_pubkey = some root })
  unfolding resolve_ca_bundle dev_ca_bundle
  resolve_pinned env cache fetch now_ms h = ground (arith, h.no_master, h.pinned, h.nonempty)

  pub resolve_lem :
      (env : Env) (calls : List Call) (cache : Cache) (fetch : Fetched) (now_ms : ℕ)
      → Pins env root
      → IsBacked calls cache
      → Outcome
          ((fetch, now_ms) ∷ calls)
          now_ms
          (resolve_ca_bundle verify_bundle_signature env cache fetch now_ms)
  resolve_lem env calls cache fetch now_ms pins h =
      rw (resolve_pinned env cache fetch now_ms pins)
        (get_lem calls cache fetch now_ms pins.nonempty h)

  -- The calls answered one after another, each answer good for the calls up to it.
  abbrev pub AllGood : Env → List Call → Cache → List Call → Type 0
  AllGood env calls cache [] = Unit
  AllGood env calls cache ((fetch, now_ms) ∷ rest) =
      let after = resolve_ca_bundle verify_bundle_signature env cache fetch now_ms in
      IsGood ((fetch, now_ms) ∷ calls) now_ms after.1
      × AllGood env ((fetch, now_ms) ∷ calls) after.0 rest

  all_good :
      (env : Env) (calls : List Call) (cache : Cache) (rest : List Call)
      → Pins env root
      → IsBacked calls cache
      → AllGood env calls cache rest
  all_good env calls cache [] pins h = tt
  all_good env calls cache ((fetch, now_ms) ∷ rest) pins h =
      let step = resolve_lem env calls cache fetch now_ms pins h in
      (step.1, all_good env ((fetch, now_ms) ∷ calls) _ rest pins step.0)

  -- In an environment that pins a root key and has no development authority, from an empty cache, for
  -- any sequence of calls and answers of the fetcher: every bundle that a call returns was signed by
  -- the root key, and was fetched by that call or an earlier one of the sequence, less than the refresh
  -- interval before.
  pub resolved_bundles_lem :
      (env : Env) (calls : List Call) → Pins env root → AllGood env [] none calls
  resolved_bundles_lem env calls pins = all_good env [] none calls pins tt

  abbrev pub is_signed : Fetched → Bool
  is_signed fetch_threw = false
  is_signed fetch_null = false
  is_signed (fetched bundle) = verify_bundle_signature bundle root

  -- In such an environment a call returns a bundle exactly if the cache holds one fetched less than the
  -- refresh interval before, or the fetcher answers one that the root key signed: an older bundle in the
  -- cache is no help, and a failed call leaves the cache as it was.
  pub answered_iff :
      (env : Env) (cache : Cache) (fetch : Fetched) (now_ms : ℕ)
      → Pins env root
      → let after = resolve_ca_bundle verify_bundle_signature env cache fetch now_ms in
        (is_answered after.1 ≡ (holds_fresh now_ms cache || is_signed fetch))
        × (is_answered after.1 ≡ false → after.0 ≡ cache)
  unfolding get_ca_bundle refetch checked is_fresh
  answered_iff env none fetch now_ms pins =
      rw (resolve_pinned env none fetch now_ms pins) (ground (arith, pins.nonempty))
  answered_iff env (some entry) fetch now_ms pins =
      rw (resolve_pinned env (some entry) fetch now_ms pins) (ground (arith, pins.nonempty))
