-- ===== src/Routes/LeaseMiddleware/Scope.antt =====
-- The scope that a request needs, and the scopes that a certificate grants.
pub mod Grants
use Prim.Native.String.{[], ◌∷◌}
use text.Mathlib.Text.{starts_with}
use cloister.Prelude.{String, Bool, true, false, not, Option, none, some, or_else, if◌then◌else◌}
use cloister.Prelude.Keys.{◌==◌, string_eq}
use cloister.Prelude.Text.{◌&◌}

-- The fields of `params` that are read, the texts that the source takes them for.
pub record Params : Type 0 where
  pub name : Option String
  pub repo : Option String

unfoldable pub derive_request_scope : String → Params → String
derive_request_scope method p =
    if method == "tools/list"
    then "tools:list"
    else if method == "server/discover"
    then "server:discover"
    else if method == "subscriptions/listen"
    then "subscriptions:listen"
    else if not (method == "tools/call")
    then "unknown:" & method
    else if or_else p.name "" == ""
    then "tools:call:no_name"
    else if or_else p.repo "" == ""
    then or_else p.name "" & ":*"
    else or_else p.name "" & ":" & or_else p.repo ""

-- `s.slice(0, -1)` where `s.endsWith(":*")`
unfoldable pub wildcard_prefix : String → Option String
wildcard_prefix [] = none
wildcard_prefix (c ∷ s) =
    let rest = wildcard_prefix s in
    if (c ∷ s) == ":*"
    then some ":"
    else elim rest [ none ↦ none | some prefix ↦ some (c ∷ prefix) ]

unfoldable pub scope_allows : String → String → Bool
scope_allows cert_scope requested =
    if cert_scope == "*"
    then true
    else if cert_scope == requested
    then true
    else elim (wildcard_prefix cert_scope) [
      | none ↦ false
      | some prefix ↦ starts_with requested prefix
    ]
