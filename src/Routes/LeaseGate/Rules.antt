-- ===== src/Routes/LeaseGate/Rules.antt =====
-- The gate and the rule table of its documentation.
use cloister.Prelude.{◌≡◌, Bool, not, ◌&&◌, Option, none, some, List, [], ◌∷◌, arith, if◌then◌else◌}
use cloister.Prelude.Keys.{◌==◌, string_eq, option_eq}
use cloister.Routes.LeaseGate.{
  Env, LeaseMode, off, enforce, is_truthy, resolve_lease_gate, lease_enforced,
}

-- A rule's condition and the mode that it asks for.
abbrev pub Rule : Type 0
Rule = Bool × LeaseMode

-- The rules 1 to 6, in their order.
abbrev pub rules : Env → List Rule
rules env =
    let dev = env.cloister_mode == some "dev" in
    let master = is_truthy env.dev_ca_master in
    let pubkey = is_truthy env.interlace_root_pubkey in
    (dev && master, enforce)
    ∷ (dev && pubkey, enforce)
    ∷ (dev && not master && not pubkey, off)
    ∷ (not dev && pubkey, enforce)
    ∷ (not dev && not master && not pubkey, enforce)
    ∷ (not dev && master && not pubkey, enforce)
    ∷ []

-- The first rule whose condition holds.
abbrev pub first_match : List Rule → Option LeaseMode
first_match [] = none
first_match ((applies, mode) ∷ rest) = if applies then some mode else first_match rest

-- Some rule of the table applies to every environment; the first that does gives the mode that the gate
-- resolves to, and the gate is enforced exactly if that mode is `enforce`.
pub resolve_lease_gate_lem :
    (env : Env)
    → (first_match (rules env) ≡ some (resolve_lease_gate env))
      × (first_match (rules env) ≡ some (if lease_enforced env then enforce else off))
unfolding resolve_lease_gate lease_enforced
resolve_lease_gate_lem env = (ground arith, ground arith)
