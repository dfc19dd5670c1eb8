-- ===== src/Routes/LeaseMiddleware/Canonical.antt =====
-- src/routes/lease-middleware.ts: the text that a request's signature covers.
use cloister.Prelude.{ℕ, ◌≡◌, refl, sym, ap, ◌∙◌, String, List, Option, some}
use cloister.Prelude.Text.{◌&◌, decimal}
use cloister.Prelude.Chars.{cut_at, b64encode}
use cloister.Prelude.Lines.{Lacks, cut_at-join, Lacks-b64encode, Lacks-decimal}
use cloister.Routes.LeaseMiddleware.Types.{Runtime}
use cloister.Routes.LeaseMiddleware.{canonical_request_text}

some-parts :
    {s t u v : String}
    → ◌≡◌ {A = Option (String × String)} (some (s, u)) (some (t, v))
    → (s ≡ t) × (u ≡ v)
some-parts h = (cc, cc)

-- Two texts whose first lines end at the same line feed.
line_lem :
    (s t u v : String)
    → Lacks b'\n' s
    → Lacks b'\n' t
    → s & ("\n" & u) ≡ t & ("\n" & v)
    → (s ≡ t) × (u ≡ v)
line_lem s t u v hs ht h = some-parts (
    sym (cut_at-join b'\n' "\n" s u refl hs)
    ∙ ap (cut_at b'\n') h
    ∙ cut_at-join b'\n' "\n" t v refl ht)

-- Where the methods and URLs have no line feed, and neither has what `btoa` gives: requests with the
-- same canonical text have the same method, URL, time, nonce and body, each in the form in which the
-- text holds it. No part of a signed request can be read as another.
pub canonical_request_text-injective :
    (rt : Runtime) (method method' url url' : String) (ts ts' : ℕ) (nonce nonce' : List ℕ)
    (body body' : String)
    → ((bytes : List ℕ) → Lacks b'\n' (rt.btoa bytes))
    → Lacks b'\n' method
    → Lacks b'\n' method'
    → Lacks b'\n' url
    → Lacks b'\n' url'
    → canonical_request_text rt method url ts nonce body
      ≡ canonical_request_text rt method' url' ts' nonce' body'
    → (method ≡ method')
      × (url ≡ url')
      × (decimal ts ≡ decimal ts')
      × (b64encode rt.btoa nonce ≡ b64encode rt.btoa nonce')
      × (body ≡ body')
unfolding canonical_request_text
canonical_request_text-injective rt method method' url url' ts ts' nonce nonce' body body' plain m
      m' u u' h =
    let (same_method, h₁) = line_lem method method' _ _ m m' h in
    let (same_url, h₂) = line_lem url url' _ _ u u' h₁ in
    let (same_ts, h₃) =
      line_lem (decimal ts) (decimal ts') _ _ (Lacks-decimal ts) (Lacks-decimal ts') h₂ in
    let (same_nonce, same_body) =
      line_lem (b64encode rt.btoa nonce) (b64encode rt.btoa nonce') body body'
        (Lacks-b64encode rt.btoa b'\n' nonce refl refl (plain nonce))
        (Lacks-b64encode rt.btoa b'\n' nonce' refl refl (plain nonce')) h₃ in
    (same_method, same_url, same_ts, same_nonce, same_body)
