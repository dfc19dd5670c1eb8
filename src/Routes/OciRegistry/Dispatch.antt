-- ===== src/Routes/OciRegistry/Dispatch.antt =====
-- src/routes/oci-registry.ts: `match` and `handle` agree on the requests that the route serves.
use cloister.Prelude.{
  ℕ, if◌then◌else◌, ◌≡◌, refl, ap, String, Bool, true, false, ◌&&◌, ◌||◌, Option, none, some, arith,
  is_some,
}
use cloister.Prelude.Keys.{◌==◌, string_eq}
use cloister.Routes.LeaseGate.{Env}
use cloister.Routes.LeaseMiddleware.Types.{Runtime}
use cloister.Routes.OciRegistry.Types.{Patterns, Platform, Registry, Call}
use cloister.Routes.OciRegistry.{
  Endpoint, when, ◌otherwise◌, one_group, two_groups, no_group, matches, endpoint_of, serve, answer,
  handle,
}

is_some-otherwise : (a b : Option Endpoint) → is_some (a otherwise b) ≡ (is_some a || is_some b)
is_some-otherwise none b = refl
is_some-otherwise (some e) b = refl

is_some-when : (b : Bool) (o : Option Endpoint) → is_some (when b o) ≡ (b && is_some o)
is_some-when true o = refl
is_some-when false o = refl

is_some-one :
    (make : String → Endpoint) (o : Option String) → is_some (one_group make o) ≡ is_some o
is_some-one make none = refl
is_some-one make (some name) = refl

is_some-two :
    (make : String → String → Endpoint) (o : Option (String × String))
    → is_some (two_groups make o) ≡ is_some o
is_some-two make none = refl
is_some-two make (some (name, rest)) = refl

is_some-no : (e : Endpoint) (o : Option (Unit {0})) → is_some (no_group e o) ≡ is_some o
is_some-no e none = refl
is_some-no e (some found) = refl

ruleset is_some_laws = (is_some-otherwise, is_some-when, is_some-one, is_some-two, is_some-no)

-- The two chains of tests, on the answers of the patterns.
covered :
    (is_get is_head is_post is_patch is_put : Bool) (v w c t m b begin session : Bool)
    → (if is_get || is_head
        then v || w || c || t || m || b
        else if is_post
        then begin
        else if is_patch || is_put
        then session || (is_put && m)
        else false)
      ≡ true
    → (is_post && begin
        || is_patch && session
        || is_put && session
        || is_put && m
        || v
        || w
        || c
        || t
        || m
        || b)
      ≡ true
covered is_get is_head is_post is_patch is_put v w c t m b begin session h = ground (arith, h)

matched_endpoint :
    (patterns : Patterns) (method url : String)
    → matches patterns method url ≡ true
    → is_some (endpoint_of patterns method url) ≡ true
unfolding matches endpoint_of
matched_endpoint patterns method url h = simp is_some_laws (
    covered (method == "GET") (method == "HEAD") (method == "POST") (method == "PATCH")
      (method == "PUT") (is_some (patterns.version url)) (is_some (patterns.version_no_slash url))
      (is_some (patterns.catalog url)) (is_some (patterns.tags url))
      (is_some (patterns.manifest url)) (is_some (patterns.blob url))
      (is_some (patterns.upload_begin url)) (is_some (patterns.upload_session url)) h)

some_endpoint : (o : Option Endpoint) → is_some o ≡ true → (e : Endpoint) × (o ≡ some e)
some_endpoint none h = cc
some_endpoint (some e) h = (e, refl)

handle_found :
    (rt : Runtime) (platform : Platform) (env : Env) (max_blob_bytes : ℕ) (this : Registry)
    (call : Call) (endpoint : Endpoint)
    → endpoint_of platform.patterns call.method call.url ≡ some endpoint
    → handle rt platform env max_blob_bytes this call
      ≡ serve rt platform env max_blob_bytes this call endpoint
unfolding handle
handle_found rt platform env max_blob_bytes this call endpoint found =
    ap (answer rt platform env max_blob_bytes this call) found

-- Every request that the route matches is served by one of its endpoints, for any URL patterns: the
-- answer for an endpoint that is not implemented is never given to a matched request.
pub matched-served :
    (rt : Runtime) (platform : Platform) (env : Env) (max_blob_bytes : ℕ) (this : Registry)
    (call : Call)
    → matches platform.patterns call.method call.url ≡ true
    → (endpoint : Endpoint) × (endpoint_of platform.patterns call.method call.url ≡ some endpoint)
      × (handle rt platform env max_blob_bytes this call
          ≡ serve rt platform env max_blob_bytes this call endpoint)
matched-served rt platform env max_blob_bytes this call h =
    let (endpoint, found) =
      some_endpoint (endpoint_of platform.patterns call.method call.url)
        (matched_endpoint platform.patterns call.method call.url h) in
    (endpoint, found, handle_found rt platform env max_blob_bytes this call endpoint found)
