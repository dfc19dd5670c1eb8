-- ===== src/Vault/RateBucket/Rate.antt =====
-- The bucket over sequences of requests, and its retry hint.
use cloister.Prelude.{ℕ, ◌+◌, ◌-◌, ◌*◌, ◌≤◌, ◌≡◌, sym, subst, some, List, [], ◌∷◌, arith}
use cloister.Vault.RateBucket.{
  capacity, unit, BucketState, refill_bucket, ConsumeResult, consumed, rejected, try_consume,
  next_state,
}

-- Never more than the capacity.
abbrev pub IsBounded : BucketState → Type 0
IsBounded s = s.tokens ≤ capacity * unit

-- One request: refill, then consume.
abbrev pub request : BucketState → ℕ → ℕ → ConsumeResult
request s now_ms cost = try_consume (refill_bucket (some s) now_ms) cost

-- The cost of a request if it is let through.
abbrev pub charged : ConsumeResult → ℕ → ℕ
charged (consumed next) cost = cost
charged (rejected next retry_after_sec) cost = 0

-- The requests of one subject, each with its time and its cost, and what was let through in all.
pub serve : BucketState → List (ℕ × ℕ) → BucketState × ℕ
serve s [] = (s, 0)
serve s ((now_ms, cost) ∷ rest) =
    let r = request s now_ms cost in
    let (s', total) = serve (next_state r) rest in (s', charged r cost + total)

-- The times never go back, from the bucket's last refill to an end.
abbrev pub IsOrdered : ℕ → List (ℕ × ℕ) → ℕ → Type 0
IsOrdered from [] until = from ≤ until
IsOrdered from ((now_ms, cost) ∷ rest) until = (from ≤ now_ms) × IsOrdered now_ms rest until

IsOrdered-le :
    (from : ℕ) (requests : List (ℕ × ℕ)) (until : ℕ) → IsOrdered from requests until → from ≤ until
IsOrdered-le from [] until h = h
IsOrdered-le from ((now_ms, cost) ∷ rest) until h =
    omega (arith, h.0, IsOrdered-le now_ms rest until h.1)

request-rate :
    (s : BucketState) (now_ms cost : ℕ)
    → s.last_refill_ms ≤ now_ms
    → ((next_state (request s now_ms cost)).tokens + charged (request s now_ms cost) cost * unit
        ≤ s.tokens + (now_ms - s.last_refill_ms))
      × ((next_state (request s now_ms cost)).last_refill_ms ≡ now_ms)
unfolding refill_bucket try_consume
request-rate s now_ms cost le = ground arith

-- Over any requests at times that do not go back, what is let through is at most what the bucket
-- held at first and ten tokens for each second until the end.
pub serve-rate :
    (s : BucketState) (requests : List (ℕ × ℕ)) (until : ℕ)
    → IsOrdered s.last_refill_ms requests until
    → (serve s requests).1 * unit ≤ s.tokens + (until - s.last_refill_ms)
unfolding serve
serve-rate s [] until h = omega arith
serve-rate s ((now_ms, cost) ∷ rest) until h =
    let (spent, at) = request-rate s now_ms cost h.0 in
    let next : BucketState = next_state (request s now_ms cost) in
    let ordered : IsOrdered next.last_refill_ms rest until =
      subst (λ t. IsOrdered t rest until) (sym at) h.1 in
    omega (arith, spent, at, serve-rate next rest until ordered, IsOrdered-le now_ms rest until h.1)

-- The bucket never holds more than its capacity, whatever is asked of it.
pub request-IsBounded :
    (s : BucketState) (now_ms cost : ℕ) → IsBounded (next_state (request s now_ms cost))
unfolding refill_bucket try_consume
request-IsBounded s now_ms cost = ground arith

-- After a rejection of a cost within the capacity, the same cost is let through once the hinted
-- number of seconds has passed.
pub retry_succeeds :
    (s next : BucketState) (now_ms cost retry later_ms : ℕ)
    → cost ≤ capacity
    → request s now_ms cost ≡ rejected next retry
    → now_ms + 1000 * retry ≤ later_ms
    → charged (request next later_ms cost) cost ≡ cost
unfolding refill_bucket try_consume
retry_succeeds s next now_ms cost retry later_ms le e wait = ground arith
