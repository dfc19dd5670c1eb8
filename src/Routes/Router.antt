-- ===== src/Routes/Router.antt =====
-- src/router.ts: the first route that matches handles the request. Requests, environments and
-- responses are whatever the routes take and give.
pub mod Dispatch
use cloister.Prelude.{Bool, true, false, List, [], ◌∷◌, if◌then◌else◌}

module _ (Request Env Response : Type 0) where
  pub record EdgeRoute : Type 0 where
    pub matches : Request → Bool
    pub serve : Request → Env → Response

  -- `new Response("not found", { status: 404 })`, or the response of a route
  pub data Answer : Type 0 where
    not_found : Answer
    served : Response → Answer

  -- The loop over the routes; a later route is reached only if the earlier ones do not match.
  unfoldable pub handle : List EdgeRoute → Request → Env → Answer
  handle [] request env = not_found
  handle (route ∷ routes) request env =
      if route.matches request then served (route.serve request env) else handle routes request env
