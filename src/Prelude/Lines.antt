-- ===== src/Prelude/Lines.antt =====
-- Texts without a given character, and cutting a text at its first one.
use Prim.Native.Nat.{ℕ, zero, suc, ◌+◌, ◌/◌, ◌%◌, ◌<◌}
use Prim.Native.Char.{Char, code}
use Prim.Native.String.{String, [], ◌∷◌}
use text.Mathlib.TextLemmas.{nil-append, cons-append}
use mathlib.Core.Path.{◌≡◌, refl, ap, ◌∙◌}
use mathlib.Core.Bool.{true, false}
use mathlib.Core.Option.{some}
use mathlib.Core.List.{List}
use mathlib.Core.Logic.{inl, inr}
use native.Mathlib.Omega.{arith}
use package.cloister.Prelude.Tests.{nat_beq, Bool-cases, ltb}
use package.cloister.Prelude.Text.{◌&◌, digit, decimal, decimal_from}
use package.cloister.Prelude.Chars.{cut_at, replace_all, pad_or_keep, strip_padding, b64encode}

-- No character of the text has this number.
abbrev pub Lacks : ℕ → String → Type 0
Lacks c [] = Unit
Lacks c (d ∷ s) = (nat_beq (code d) c ≡ false) × Lacks c s

-- The text is cut just where it was joined.
pub cut_at-append :
    (c : ℕ) (s t : String) (d : Char)
    → nat_beq (code d) c ≡ true
    → Lacks c s
    → cut_at c (s & (d ∷ t)) ≡ some (s, t)
unfolding cut_at
cut_at-append c [] t d hit lacks = ap (cut_at c) (nil-append (d ∷ t)) ∙ rw hit refl
cut_at-append c (e ∷ s) t d hit lacks =
    ap (cut_at c) (cons-append e s (d ∷ t)) ∙ rw (lacks.0, cut_at-append c s t d hit lacks.1) refl

-- The same where the character stands alone between the texts.
pub cut_at-join :
    (c : ℕ) (d : Char) (s t : String)
    → nat_beq (code d) c ≡ true
    → Lacks c s
    → cut_at c (s & ((d ∷ []) & t)) ≡ some (s, t)
cut_at-join c d s t hit lacks =
    ap (λ u. cut_at c (s & u)) (cons-append d [] t ∙ ap (λ u. d ∷ u) (nil-append t))
    ∙ cut_at-append c s t d hit lacks

pub Lacks-append : (c : ℕ) (s t : String) → Lacks c s → Lacks c t → Lacks c (s & t)
Lacks-append c [] t h k = rw (nil-append t) k
Lacks-append c (e ∷ s) t h k = rw (cons-append e s t) (h.0, Lacks-append c s t h.1 k)

Lacks-replace :
    (c from : ℕ) (to : Char) (s : String)
    → nat_beq (code to) c ≡ false
    → Lacks c s
    → Lacks c (replace_all from to s)
unfolding replace_all
Lacks-replace c from to [] k h = tt
Lacks-replace c from to (e ∷ s) k h = elim (Bool-cases (nat_beq (code e) from)) [
  | inl hit ↦ rw hit (k, Lacks-replace c from to s k h.1)
  | inr other ↦ rw other (h.0, Lacks-replace c from to s k h.1)
]

Lacks-pad :
    (c : ℕ) (e : Char) (t : String)
    → nat_beq (code e) c ≡ false
    → Lacks c t
    → Lacks c (pad_or_keep e t)
Lacks-pad c e [] k h = elim (Bool-cases (nat_beq (code e) b'=')) [
  | inl padding ↦ rw padding tt
  | inr other ↦ rw other (k, tt)
]
Lacks-pad c e (f ∷ t) k h = (k, h)

Lacks-strip : (c : ℕ) (s : String) → Lacks c s → Lacks c (strip_padding s)
unfolding strip_padding
Lacks-strip c [] h = tt
Lacks-strip c (e ∷ s) h = Lacks-pad c e (strip_padding s) h.0 (Lacks-strip c s h.1)

pub Lacks-b64encode :
    (btoa : List ℕ → String) (c : ℕ) (bytes : List ℕ)
    → nat_beq b'-' c ≡ false
    → nat_beq b'_' c ≡ false
    → Lacks c (btoa bytes)
    → Lacks c (b64encode btoa bytes)
unfolding b64encode
Lacks-b64encode btoa c bytes k l h =
    Lacks-strip c _ (Lacks-replace c b'/' "_" _ l (Lacks-replace c b'+' "-" (btoa bytes) k h))

Lacks-digit : (d : ℕ) → d < 10 → Lacks b'\n' (digit d)
Lacks-digit zero h = (refl, tt)
Lacks-digit (suc zero) h = (refl, tt)
Lacks-digit (suc (suc zero)) h = (refl, tt)
Lacks-digit (suc (suc (suc zero))) h = (refl, tt)
Lacks-digit (suc (suc (suc (suc zero)))) h = (refl, tt)
Lacks-digit (suc (suc (suc (suc (suc zero))))) h = (refl, tt)
Lacks-digit (suc (suc (suc (suc (suc (suc zero)))))) h = (refl, tt)
Lacks-digit (suc (suc (suc (suc (suc (suc (suc zero))))))) h = (refl, tt)
Lacks-digit (suc (suc (suc (suc (suc (suc (suc (suc zero)))))))) h = (refl, tt)
Lacks-digit (suc (suc (suc (suc (suc (suc (suc (suc (suc zero))))))))) h = (refl, tt)
Lacks-digit (suc (suc (suc (suc (suc (suc (suc (suc (suc (suc n)))))))))) h = absurd (omega arith)

Lacks-decimal_from : (fuel n : ℕ) → Lacks b'\n' (decimal_from fuel n)
unfolding decimal_from
Lacks-decimal_from zero n = tt
Lacks-decimal_from (suc fuel) n = elim (Bool-cases (ltb n 10)) [
  | inl small ↦ rw small (Lacks-digit n (ground arith))
  | inr large ↦ rw large (
      Lacks-append b'\n' (decimal_from fuel (n / 10)) (digit (n % 10))
        (Lacks-decimal_from fuel (n / 10)) (Lacks-digit (n % 10) (omega arith)))
]

pub Lacks-decimal : (n : ℕ) → Lacks b'\n' (decimal n)
unfolding decimal
Lacks-decimal n = Lacks-decimal_from (n + 1) n
