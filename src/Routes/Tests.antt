-- ===== src/Routes/Tests.antt =====
-- The gate of an environment, and a router with two routes.
use cloister.Prelude.{◌≡◌, refl, String, some, none, true, [], ◌∷◌}
use cloister.Prelude.Keys.{◌==◌, string_eq}
use cloister.Routes.LeaseGate.{Env, off, enforce, resolve_lease_gate}
use cloister.Routes.Router.{EdgeRoute, not_found, served, handle}

abbrev dev_env : Env
dev_env = record {
  cloister_mode = some "dev";
  dev_ca_master = some "";
  interlace_root_pubkey = none;
  dev_ca_epoch = none;
}

gate_off : resolve_lease_gate dev_env ≡ off
unfolding resolve_lease_gate
gate_off = refl

gate_on : resolve_lease_gate (record dev_env { interlace_root_pubkey = some "key" }) ≡ enforce
unfolding resolve_lease_gate
gate_on = refl

-- Requests are paths, and responses are texts.
abbrev health : EdgeRoute String Unit String
health = record { matches = λ path. path == "/health"; serve = λ path env. "ok" }

abbrev catch_all : EdgeRoute String Unit String
catch_all = record { matches = λ path. true; serve = λ path env. path }

first_route : handle String Unit String (health ∷ catch_all ∷ []) "/health" tt ≡ served "ok"
unfolding handle
first_route = refl

no_route : handle String Unit String (health ∷ []) "/other" tt ≡ not_found
unfolding handle
no_route = refl
