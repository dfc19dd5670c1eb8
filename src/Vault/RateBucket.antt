-- ===== src/Vault/RateBucket.antt =====
-- vault/src/rate-bucket.ts: the token bucket of the vault. A token count is a JavaScript number that
-- the code only adds milliseconds' worth of refill to: it is held here in hundredths of a token, so
-- that one millisecond at ten tokens a second is exactly one unit.
pub mod Rate
use cloister.Prelude.{ℕ, ◌+◌, ◌-◌, ◌*◌, ◌/◌, Option, none, some, ltb, min, max, if◌then◌else◌}

abbrev pub capacity : ℕ
capacity = 100

abbrev pub refill_per_sec : ℕ
refill_per_sec = 10

-- hundredths in a token
abbrev pub unit : ℕ
unit = 100

pub record BucketState : Type 0 where
  -- in hundredths
  pub tokens : ℕ
  pub last_refill_ms : ℕ

-- Hundredths of a token that a number of milliseconds refills: `ms / 1000 * REFILL_PER_SEC`.
abbrev pub refilled_in : ℕ → ℕ
refilled_in ms = ms * refill_per_sec * unit / 1000

unfoldable pub refill_bucket : Option BucketState → ℕ → BucketState
refill_bucket none now_ms = record { tokens = capacity * unit; last_refill_ms = now_ms }
refill_bucket (some prev) now_ms = record {
  tokens = min (capacity * unit) (prev.tokens + refilled_in (now_ms - prev.last_refill_ms));
  last_refill_ms = now_ms;
}

pub data ConsumeResult : Type 0 where
  consumed : BucketState → ConsumeResult
  rejected : (next : BucketState) (retry_after_sec : ℕ) → ConsumeResult

-- `Math.ceil(deficit / REFILL_PER_SEC)` of a deficit in hundredths
abbrev pub ceil_seconds : ℕ → ℕ
ceil_seconds deficit = (deficit + (refill_per_sec * unit - 1)) / (refill_per_sec * unit)

unfoldable pub try_consume : BucketState → ℕ → ConsumeResult
try_consume refilled cost =
    if ltb refilled.tokens (cost * unit)
    then rejected refilled (max 1 (ceil_seconds (cost * unit - refilled.tokens)))
    else consumed (record {
      tokens = refilled.tokens - cost * unit;
      last_refill_ms = refilled.last_refill_ms;
    })

-- The state that is persisted on both branches.
abbrev pub next_state : ConsumeResult → BucketState
next_state (consumed next) = next
next_state (rejected next retry_after_sec) = next
