-- ===== src/Routes/LeaseMiddleware/Scope/Grants.antt =====
-- src/routes/lease-middleware.ts: the grammar of scopes.
use Prim.Native.Char.{Char}
use Prim.Native.String.{[], ◌∷◌, count}
use text.Mathlib.Text.{starts_with}
use text.Mathlib.TextEquality.{starts_with_iff}
use text.Mathlib.TextLemmas.{append_assoc, cons-append, length-append, tail-eq_of_cons-eq}
use mathlib.Core.Bool.{true≢false}
use cloister.Prelude.{
  ◌≡◌, refl, ap, sym, ◌∙◌, ◌⊎◌, inl, inr, ◌↔◌, String, true, false, Option, none, some, arith,
  Bool-cases, Option-cases,
}
use cloister.Prelude.Keys.{◌==◌, ==_iff, string_eq}
use cloister.Prelude.Text.{◌&◌}
use cloister.Routes.LeaseMiddleware.Scope.{wildcard_prefix, scope_allows}

-- The documented meaning: "*" grants all, a scope grants itself, and "X:*" grants what begins with "X:".
abbrev pub Grants : String → String → Type 0
Grants cert_scope requested =
    (cert_scope ≡ "*")
    ⊎ ((cert_scope ≡ requested)
        ⊎ ((name : String) × (rest : String) × (cert_scope ≡ name & ":*")
            × (requested ≡ name & (":" & rest))))

some-injective : {s t : String} → some s ≡ some t → s ≡ t
some-injective h = cc

prefix-cons_other :
    (c : Char) (s p : String)
    → ((c ∷ s) == ":*") ≡ false
    → wildcard_prefix s ≡ some p
    → wildcard_prefix (c ∷ s) ≡ some (c ∷ p)
unfolding wildcard_prefix
prefix-cons_other c s p e h = rw (e, h) refl

prefix-cons_none :
    (c : Char) (s : String)
    → ((c ∷ s) == ":*") ≡ false
    → wildcard_prefix s ≡ none
    → wildcard_prefix (c ∷ s) ≡ none
unfolding wildcard_prefix
prefix-cons_none c s e h = rw (e, h) refl

none≢some : {s : String} → ◌≡◌ {A = Option String} none (some s) → ⊥
none≢some h = cc

prefix_parts :
    (s prefix : String)
    → wildcard_prefix s ≡ some prefix
    → (name : String) × (s ≡ name & ":*") × (prefix ≡ name & ":")
unfolding wildcard_prefix
prefix_parts [] prefix h = absurd (none≢some h)
prefix_parts (c ∷ s) prefix h = elim (Bool-cases ((c ∷ s) == ":*")) [
  | inl e ↦ ("", (==_iff (c ∷ s) ":*").0 e, some-injective (sym h ∙ rw e refl))
  | inr e ↦ elim (Option-cases (wildcard_prefix s)) [
    | inl missing ↦ absurd (none≢some (sym (prefix-cons_none c s e missing) ∙ h))
    | inr (p, found) ↦
        let (name, whole, part) = prefix_parts s p found in
        (
          c ∷ name,
          ap (λ t. c ∷ t) whole ∙ sym (cons-append c name ":*"),
          some-injective (sym h ∙ prefix-cons_other c s p e found)
              ∙ ap (λ t. c ∷ t) part
              ∙ sym (cons-append c name ":"),
        )
  ]
]

longer : (c : Char) (name : String) → ((c ∷ (name & ":*")) == ":*") ≡ false
longer c name = elim (Bool-cases ((c ∷ (name & ":*")) == ":*")) [
  | inr e ↦ e
  | inl e ↦
      let short : name & ":*" ≡ "*" = tail-eq_of_cons-eq ((==_iff (c ∷ (name & ":*")) ":*").0 e) in
      let counted : count (name & ":*") ≡ 1 = ap count short in
      absurd (omega (arith, length-append name ":*"))
]

prefix_of_parts : (name : String) → wildcard_prefix (name & ":*") ≡ some (name & ":")
unfolding wildcard_prefix
prefix_of_parts [] = refl
prefix_of_parts (c ∷ name) =
    ap wildcard_prefix (cons-append c name ":*")
    ∙ prefix-cons_other c (name & ":*") (name & ":") (longer c name) (prefix_of_parts name)
    ∙ ap some (sym (cons-append c name ":"))

allowed-Grants :
    (cert_scope requested : String)
    → scope_allows cert_scope requested ≡ true
    → Grants cert_scope requested
unfolding scope_allows
allowed-Grants cert_scope requested h = elim (Bool-cases (cert_scope == "*")) [
  | inl all ↦ inl ((==_iff cert_scope "*").0 all)
  | inr not_all ↦ elim (Bool-cases (cert_scope == requested)) [
    | inl same ↦ inr (inl ((==_iff cert_scope requested).0 same))
    | inr other ↦ elim (Option-cases (wildcard_prefix cert_scope)) [
      | inl missing ↦ absurd (true≢false (sym h ∙ rw (not_all, other, missing) refl))
      | inr (p, found) ↦
          let starts : starts_with requested p ≡ true = sym (rw (not_all, other, found) refl) ∙ h in
          let (name, whole, part) = prefix_parts cert_scope p found in
          let (rest, cut) = (starts_with_iff requested p).0 starts in
          inr (
            inr (name, rest, whole, sym cut ∙ ap (λ t. t & rest) part ∙ append_assoc name ":" rest))
    ]
  ]
]

wildcard_allows :
    (cert_scope requested p : String)
    → wildcard_prefix cert_scope ≡ some p
    → starts_with requested p ≡ true
    → scope_allows cert_scope requested ≡ true
unfolding scope_allows
wildcard_allows cert_scope requested p found starts = elim (Bool-cases (cert_scope == "*")) [
  | inl all ↦ rw all refl
  | inr not_all ↦ elim (Bool-cases (cert_scope == requested)) [
    | inl same ↦ rw (not_all, same) refl
    | inr other ↦ rw (not_all, other, found) starts
  ]
]

Grants-allowed :
    (cert_scope requested : String)
    → Grants cert_scope requested
    → scope_allows cert_scope requested ≡ true
unfolding scope_allows
Grants-allowed cert_scope requested (inl all) = rw ((==_iff cert_scope "*").1 all) refl
Grants-allowed cert_scope requested (inr (inl same)) = elim (Bool-cases (cert_scope == "*")) [
  | inl all ↦ rw all refl
  | inr not_all ↦ rw (not_all, (==_iff cert_scope requested).1 same) refl
]
Grants-allowed cert_scope requested (inr (inr (name, rest, whole, parts))) =
    wildcard_allows cert_scope requested (name & ":")
      (ap wildcard_prefix whole ∙ prefix_of_parts name)
      ((starts_with_iff requested (name & ":")).1 (rest, append_assoc name ":" rest ∙ sym parts))

-- A certificate's scope allows a request exactly if the documented grammar grants it: both are equal,
-- the certificate's is "*", or it is a name with ":*" and the request's is that name, a colon and
-- any text.
pub scope_allows_iff :
    (cert_scope requested : String)
    → (scope_allows cert_scope requested ≡ true) ↔ Grants cert_scope requested
scope_allows_iff cert_scope requested =
    (allowed-Grants cert_scope requested, Grants-allowed cert_scope requested)
