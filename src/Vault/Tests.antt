-- ===== src/Vault/Tests.antt =====
-- A bucket at concrete times.
use cloister.Prelude.{ℕ, ◌+◌, ◌-◌, ◌*◌, ◌≤◌, ◌≡◌, refl, List, [], ◌∷◌, arith}
use cloister.Vault.RateBucket.{unit, BucketState, rejected, refill_bucket, try_consume}
use cloister.Vault.RateBucket.Rate.{serve, serve-rate, request, charged, retry_succeeds}

-- Three tokens left.
abbrev low : BucketState
low = record { tokens = 300; last_refill_ms = 1000 }

-- A proxied call, a write, and one more proxied call.
abbrev calls : List (ℕ × ℕ)
calls = (1000, 5) ∷ (1000, 3) ∷ (2000, 5) ∷ []

serve-rate_example : (serve low calls).1 * unit ≤ low.tokens + (3000 - low.last_refill_ms)
serve-rate_example =
    serve-rate low calls 3000 (omega arith, (omega arith, (omega arith, omega arith)))

rejected_call : request low 1000 5 ≡ rejected low 1
rejected_call = unfold refill_bucket try_consume in refl

retry_succeeds_example : charged (request low 2000 5) 5 ≡ 5
retry_succeeds_example =
    retry_succeeds low low 1000 5 1 2000 (omega arith) rejected_call (omega arith)
