-- ===== src/Routes/PreAuthBudget.antt =====
-- src/routes/pre-auth-budget.ts: the burst limit of a source address, before authentication. Token
-- counts are in hundredths, as in the vault's bucket.
pub mod Limits
use cloister.Prelude.{
  ℕ, ◌+◌, ◌-◌, ◌*◌, ◌/◌, String, Bool, true, false, Option, none, some, List, ltb, leb, min, max,
  length, drop, if◌then◌else◌,
}
use cloister.Prelude.Keys.{◌==◌, string_eq}
use cloister.Table.{find, upsert}
use cloister.Vault.RateBucket.{BucketState, ConsumeResult, consumed, rejected, next_state, unit}

abbrev pub capacity : ℕ
capacity = 300

abbrev pub refill_per_sec : ℕ
refill_per_sec = 10

abbrev pub cost_per_request : ℕ
cost_per_request = 1

abbrev pub max_keys : ℕ
max_keys = 10000

-- A `Map` as its entries in the order of insertion; `set` of a key that is there keeps its place.
abbrev pub Entry : Type 0
Entry = String × BucketState

abbrev pub Buckets : Type 0
Buckets = List Entry

abbrev pub entry_key : Entry → String
entry_key e = e.0

abbrev pub bucket_of : Option Entry → Option BucketState
bucket_of none = none
bucket_of (some e) = some e.1

unfoldable pub refill_bucket_with_limits : Option BucketState → ℕ → BucketState
refill_bucket_with_limits none now_ms = record { tokens = capacity * unit; last_refill_ms = now_ms }
refill_bucket_with_limits (some prev) now_ms = record {
  tokens =
      min (capacity * unit)
        (prev.tokens + (now_ms - prev.last_refill_ms) * refill_per_sec * unit / 1000);
  last_refill_ms = now_ms;
}

unfoldable pub consume_with_limits : BucketState → ℕ → ConsumeResult
consume_with_limits refilled cost =
    if ltb refilled.tokens (cost * unit)
    then rejected refilled (
        max 1
          ((cost * unit - refilled.tokens + (refill_per_sec * unit - 1)) / (refill_per_sec * unit)))
    else consumed (record {
      tokens = refilled.tokens - cost * unit;
      last_refill_ms = refilled.last_refill_ms;
    })

pub data PreAuthVerdict : Type 0 where
  pass : PreAuthVerdict
  refuse : (retry_after_sec : ℕ) → PreAuthVerdict

abbrev pub verdict_of : ConsumeResult → PreAuthVerdict
verdict_of (consumed next) = pass
verdict_of (rejected next retry_after_sec) = refuse retry_after_sec

-- The header `cf-connecting-ip`, if it is there and not empty.
unfoldable pub extract_client_ip : Option String → String
extract_client_ip none = "anonymous"
extract_client_ip (some cfip) = if cfip == "" then "anonymous" else cfip

-- The loop over the keys deletes the oldest tenth.
unfoldable pub evict : Buckets → Buckets
evict buckets = if leb max_keys (length buckets) then drop (max_keys / 10) buckets else buckets

-- The map afterwards and the verdict, for the request's header and the time.
unfoldable pub pre_auth_burst_limit : Buckets → Option String → ℕ → Buckets × PreAuthVerdict
unfolding evict
pre_auth_burst_limit buckets header now_ms =
    let key = extract_client_ip header in
    let kept = evict buckets in
    let refilled = refill_bucket_with_limits (bucket_of (find entry_key key kept)) now_ms in
    let result = consume_with_limits refilled cost_per_request in
    (upsert entry_key (key, next_state result) kept, verdict_of result)
