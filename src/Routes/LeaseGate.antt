-- ===== src/Routes/LeaseGate.antt =====
-- src/routes/lease-gate.ts: whether the lease gate is enforced, from the environment.
pub mod Rules
use cloister.Prelude.{String, Bool, true, false, not, ◌&&◌, ◌||◌, Option, none, some, if◌then◌else◌}
use cloister.Prelude.Keys.{◌==◌, string_eq, option_eq}

-- The bindings that the gate and the source of the authority's bundle read; a missing one is
-- `undefined`.
pub record Env : Type 0 where
  pub cloister_mode : Option String
  pub dev_ca_master : Option String
  pub interlace_root_pubkey : Option String
  pub dev_ca_epoch : Option String

pub data LeaseMode : Type 0 where
  off enforce : LeaseMode

-- `!!value`: a binding that is there and not empty
abbrev pub is_truthy : Option String → Bool
is_truthy none = false
is_truthy (some value) = not (value == "")

unfoldable pub resolve_lease_gate : Env → LeaseMode
resolve_lease_gate env =
    let is_dev = env.cloister_mode == some "dev" in
    let has_authority = is_truthy env.dev_ca_master || is_truthy env.interlace_root_pubkey in
    if is_dev && not has_authority then off else enforce

unfoldable pub lease_enforced : Env → Bool
lease_enforced env = elim (resolve_lease_gate env) [ off ↦ false | enforce ↦ true ]
