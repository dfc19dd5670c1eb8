-- ===== src/Routes/Router/Dispatch.antt =====
-- Which route a request reaches.
use cloister.Prelude.{◌≡◌, refl, ◌⊎◌, inl, inr, true, false, List, [], ◌∷◌, ◌++◌, All, Bool-cases}
use cloister.Routes.Router.{EdgeRoute, not_found, served, handle}

module _ (Request Env Response : Type 0) where
  abbrev pub Route : Type 0
  Route = EdgeRoute Request Env Response

  abbrev pub Passed : Request → List Route → Type 0
  Passed request routes = All (λ r. r.matches request ≡ false) routes

  -- Either no route matches a request and the answer is the 404, or the answer is that of a route that
  -- matches it, and no route before that one does.
  pub handle_lem :
      (routes : List Route) (request : Request) (env : Env)
      → (Passed request routes × (handle Request Env Response routes request env ≡ not_found))
        ⊎ ((before : List Route) × (route : Route) × (after : List Route) × (routes
              ≡ before ++ route ∷ after)
            × Passed request before
            × (route.matches request ≡ true)
            × (handle Request Env Response routes request env ≡ served (route.serve request env)))
  unfolding handle
  handle_lem [] request env = inl (tt, refl)
  handle_lem (r ∷ routes) request env = elim (Bool-cases (r.matches request)) [
    | inl hit ↦ inr ([], r, routes, refl, tt, hit, rw hit)
    | inr miss ↦ elim (handle_lem routes request env) [
      | inl (passed, e) ↦ inl ((miss, passed), rw miss e)
      | inr (before, route, after, split, passed, hit, e) ↦
          inr (r ∷ before, route, after, rw split, (miss, passed), hit, rw miss e)
    ]
  ]
