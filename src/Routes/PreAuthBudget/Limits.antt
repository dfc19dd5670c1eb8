-- ===== src/Routes/PreAuthBudget/Limits.antt =====
-- The size of the map, the buckets of the addresses, and eviction.
use cloister.Prelude.{
  ℕ, ◌+◌, ◌/◌, ◌≤◌, ◌<◌, ◌≡◌, refl, String, Bool, true, false, Option, none, some, [], ◌∷◌, arith,
  zero, suc, subst, leb, leb→le, length, take, drop, length-drop, if◌then◌else◌, Bool-cases, inl,
  inr, is_some,
}
use cloister.Prelude.Keys.{◌==◌, ==_iff, string_eq}
use cloister.Table.{find, upsert, HasDistinctKeys}
use cloister.Table.Laws.{find-upsert}
use cloister.Vault.RateBucket.{ConsumeResult, next_state}
use cloister.Routes.PreAuthBudget.{
  max_keys, Entry, Buckets, entry_key, bucket_of, refill_bucket_with_limits, consume_with_limits,
  pass, verdict_of, extract_client_ip, evict, pre_auth_burst_limit, cost_per_request,
}

length-upsert :
    (e : Entry) (t : Buckets)
    → length (upsert entry_key e t)
      ≡ (if is_some (find entry_key e.0 t) then length t else length t + 1)
unfolding upsert find
length-upsert e [] = omega arith
length-upsert e (s ∷ t) = ground (arith, length-upsert e t)

length-evict : (buckets : Buckets) → length buckets ≤ max_keys → length (evict buckets) < max_keys
unfolding evict
length-evict buckets h = elim (Bool-cases (leb max_keys (length buckets))) [
  | inl full ↦
      rw full
        (omega (arith, length-drop (max_keys / 10) buckets, leb→le max_keys (length buckets) full))
  | inr room ↦ rw room (ground arith)
]

evict_below_cap : (buckets : Buckets) → length buckets < max_keys → evict buckets ≡ buckets
unfolding evict
evict_below_cap buckets lt = elim (Bool-cases (leb max_keys (length buckets))) [
  | inl full ↦ absurd (omega (arith, leb→le max_keys (length buckets) full))
  | inr room ↦ rw room
]

evict_at_cap :
    (buckets : Buckets) → max_keys ≤ length buckets → evict buckets ≡ drop (max_keys / 10) buckets
unfolding evict
evict_at_cap buckets full = elim (Bool-cases (leb max_keys (length buckets))) [
  | inl e ↦ rw e
  | inr room ↦ absurd (ground arith)
]

find-drop-eq-none :
    (k : String) (n : ℕ) (t : Buckets)
    → find entry_key k t ≡ none
    → find entry_key k (drop n t) ≡ none
unfolding find
find-drop-eq-none k zero t h = h
find-drop-eq-none k (suc n) [] h = refl
find-drop-eq-none k (suc n) (e ∷ t) h = find-drop-eq-none k n t (ground arith)

find-drop :
    (k : String) (n : ℕ) (t : Buckets)
    → HasDistinctKeys entry_key t
    → is_some (find entry_key k (take n t)) ≡ true
    → find entry_key k (drop n t) ≡ none
unfolding find
find-drop k zero t h old = cc
find-drop k (suc n) [] h old = refl
find-drop k (suc n) (e ∷ t) h old = elim (Bool-cases (entry_key e == k)) [
  | inl same ↦
      find-drop-eq-none k n t (subst (λ j. find entry_key j t ≡ none) ((==_iff _ k).0 same) h.0)
  | inr other ↦ find-drop k n t h.1 (ground arith)
]

at_most_one_more : (known : Bool) (n : ℕ) → n < max_keys → (if known then n else n + 1) ≤ max_keys
at_most_one_more true n lt = omega arith
at_most_one_more false n lt = omega arith

-- A map within its cap is still within it after any request, whatever its address and its time.
pub length-pre_auth :
    (buckets : Buckets) (header : Option String) (now_ms : ℕ)
    → length buckets ≤ max_keys
    → length (pre_auth_burst_limit buckets header now_ms).0 ≤ max_keys
unfolding pre_auth_burst_limit
length-pre_auth buckets header now_ms h =
    let key : String = extract_client_ip header in
    let result : ConsumeResult =
      consume_with_limits
        (refill_bucket_with_limits (bucket_of (find entry_key key (evict buckets))) now_ms)
        cost_per_request in
    rw (length-upsert (key, next_state result) (evict buckets)) (
      at_most_one_more (is_some (find entry_key key (evict buckets))) (length (evict buckets))
        (length-evict buckets h))

-- Below the cap, a request charges the bucket of its own address and touches no other.
pub find-pre_auth :
    (buckets : Buckets) (header : Option String) (now_ms : ℕ) (k : String)
    → length buckets < max_keys
    → bucket_of (find entry_key k (pre_auth_burst_limit buckets header now_ms).0) ≡ (
        if extract_client_ip header == k
        then some (
            next_state (
              consume_with_limits
                (refill_bucket_with_limits (bucket_of (find entry_key k buckets)) now_ms)
                1))
        else bucket_of (find entry_key k buckets))
unfolding pre_auth_burst_limit
find-pre_auth buckets header now_ms k lt =
    rw (evict_below_cap buckets lt, find-upsert)
      (elim (Bool-cases (extract_client_ip header == k)) [
        | inl same ↦ rw (same, (==_iff _ k).0 same)
        | inr other ↦ rw other
      ])

-- In a map with distinct keys that is at its cap, a request whose own bucket is among the oldest tenth is let through however drained
-- that bucket is: the eviction drops it first, and the address starts again with a full one.
pub drained_passes :
    (buckets : Buckets) (header : Option String) (now_ms : ℕ)
    → max_keys ≤ length buckets
    → HasDistinctKeys entry_key buckets
    → is_some (find entry_key (extract_client_ip header) (take (max_keys / 10) buckets)) ≡ true
    → (pre_auth_burst_limit buckets header now_ms).1 ≡ pass
unfolding pre_auth_burst_limit
drained_passes buckets header now_ms full h old =
    let dropped : evict buckets ≡ drop (max_keys / 10) buckets = evict_at_cap buckets full in
    rw (dropped, find-drop (extract_client_ip header) (max_keys / 10) buckets h old) fresh_passes
  where
    fresh_passes :
        verdict_of (consume_with_limits (refill_bucket_with_limits none now_ms) cost_per_request)
        ≡ pass
    fresh_passes = unfold consume_with_limits refill_bucket_with_limits in refl
