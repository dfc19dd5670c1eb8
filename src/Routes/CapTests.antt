-- ===== src/Routes/CapTests.antt =====
-- A map at its cap: ten thousand addresses, each a text of another length.
use text.Mathlib.TextLemmas.{length-append, length-nil}
use Prim.Native.String.{count}
use cloister.Prelude.{
  ℕ, zero, suc, ◌<◌, ◌≡◌, refl, sym, ◌∙◌, ap, String, true, none, some, [], ◌∷◌, arith, length,
  take, is_some, Bool-cases, inl, inr,
}
use cloister.Prelude.Text.{◌&◌}
use cloister.Prelude.Keys.{◌==◌, ==_iff, ==_refl, string_eq}
use cloister.Table.{find, HasDistinctKeys}
use cloister.Vault.RateBucket.{BucketState}
use cloister.Routes.PreAuthBudget.{
  Buckets, entry_key, pass, extract_client_ip, pre_auth_burst_limit,
}
use cloister.Routes.PreAuthBudget.Limits.{drained_passes}

abbrev drained : BucketState
drained = record { tokens = 0; last_refill_ms = 1000 }

abbrev address : ℕ → String
address zero = ""
address (suc n) = "x" & address n

abbrev crowd : ℕ → Buckets
crowd zero = []
crowd (suc n) = (address (suc n), drained) ∷ crowd n

length-crowd : (n : ℕ) → length (crowd n) ≡ n
length-crowd zero = refl
length-crowd (suc n) = omega (arith, length-crowd n)

count-address : (n : ℕ) → count (address n) ≡ n
count-address zero = length-nil
count-address (suc n) = length-append "x" (address n) ∙ rw (count-address n) (omega arith)

address-absent : (m n : ℕ) → n < m → find entry_key (address m) (crowd n) ≡ none
unfolding find
address-absent m zero lt = refl
address-absent m (suc n) lt = elim (Bool-cases (address (suc n) == address m)) [
  | inl same ↦
      let e : suc n ≡ m =
        sym (count-address (suc n))
        ∙ ap count ((==_iff (address (suc n)) (address m)).0 same)
        ∙ count-address m in
      absurd (omega (arith, e))
  | inr other ↦ rw other (address-absent m n (omega arith))
]

crowd-HasDistinctKeys : (n : ℕ) → HasDistinctKeys entry_key (crowd n)
crowd-HasDistinctKeys zero = tt
crowd-HasDistinctKeys (suc n) = (address-absent (suc n) n (omega arith), crowd-HasDistinctKeys n)

client_ip : (n : ℕ) → extract_client_ip (some (address (suc n))) ≡ address (suc n)
unfolding extract_client_ip
client_ip n = elim (Bool-cases (address (suc n) == "")) [
  | inl empty ↦
      let e : suc n ≡ 0 =
        sym (count-address (suc n))
        ∙ ap count ((==_iff (address (suc n)) "").0 empty)
        ∙ length-nil in
      absurd (omega (arith, e))
  | inr other ↦ rw other
]

eldest :
    (n k : ℕ)
    → is_some
        (find entry_key (extract_client_ip (some (address (suc n)))) (take (suc k) (crowd (suc n))))
      ≡ true
unfolding find
eldest n k = rw client_ip (rw (==_refl (address (suc n))))

drained_passes_example : (pre_auth_burst_limit (crowd 10000) (some (address 10000)) 1000).1 ≡ pass
drained_passes_example =
    drained_passes (crowd 10000) (some (address 10000)) 1000 (omega (arith, length-crowd 10000))
      (crowd-HasDistinctKeys 10000) (eldest 9999 999)
