-- ===== src/ActixService/Visitors.antt =====
-- examples/actix_service.rs, the handler behind the middleware: who sees which page.
use authn_kit.Prelude.{
  ℕ, ◌≡◌, ◌≢◌, ◌⊎◌, inl, inr, refl, Bool, true, ◌||◌, ◌++◌, Option, none, some, List, [], ◌∷◌,
  arith, Bool-cases, Option-cases, sym, ap, ◌∙◌, subst, ==_iff,
}
use mathlib.Core.Bool.{false≢true}
use authn_kit.Text.{Text, str, starts_with, ends_with_char}
use authn_kit.Effect.{ok}
use authn_kit.Request.{
  AuthRequest, with_header, with_cookie, with_method, with_path, with_route_pattern, with_query,
}
use authn_kit.Gateway.{AuthGateway, gateway_authenticate}
use authn_kit.Adapters.{with_headers, with_cookies}
use authn_kit.Adapters.Actix.{ServiceRequest, of_request, parsed_cookies}
use authn_kit.Adapters.Middleware.{new, handled, call-handled}
use authn_kit.ActixService.{
  User, Scope, service_scope, resolve, is_public, scopes, greeting, whoami, page, routed, app,
}

with_headers-path :
    (to_str : List ℕ → Option Text) (headers : List (Text × List ℕ)) (r : AuthRequest)
    → (with_headers to_str headers r).path ≡ r.path
unfolding with_headers with_header
with_headers-path to_str [] r = refl
with_headers-path to_str ((name, value) ∷ headers) r = elim (Option-cases (to_str value)) [
  | inl n ↦ rw (n, with_headers) (with_headers-path to_str headers r)
  | inr (text, n) ↦
      rw (n, with_headers) (with_headers-path to_str headers (with_header name text r))
]

with_cookies-path :
    (cookies : List (Text × Text)) (r : AuthRequest) → (with_cookies cookies r).path ≡ r.path
unfolding with_cookies with_cookie
with_cookies-path [] r = refl
with_cookies-path ((name, value) ∷ cookies) r = with_cookies-path cookies (with_cookie name value r)

of_request-path :
    (to_str : List ℕ → Option Text) (request : ServiceRequest)
    → (of_request to_str request).path ≡ request.path
unfolding of_request with_query with_route_pattern with_path with_method
of_request-path to_str request =
    with_cookies-path (parsed_cookies request.cookies) _
    ∙ with_headers-path to_str request.headers _

resolve-public :
    (request : AuthRequest)
    → is_public (resolve request) ≡ true
    → starts_with request.path (str "/health") ≡ true
unfolding resolve is_public
resolve-public request h = ground (arith, h)

ends_with_char-append : (s : Text) (d : ℕ) → ends_with_char d (s ++ d ∷ []) ≡ true
unfolding ends_with_char
ends_with_char-append [] d = (==_iff d d).1 refl
ends_with_char-append (c ∷ []) d = (==_iff d d).1 refl
ends_with_char-append (c ∷ e ∷ s) d = ends_with_char-append (e ∷ s) d

greeting-last : (user : User) → ends_with_char b'>' (greeting user) ≡ true
unfolding greeting str
greeting-last user = ends_with_char-append (user.username ++ str " <" ++ user.email) b'>'

-- A user's greeting ends otherwise than that of a visitor.
greeting-anonymous : (user : User) → greeting user ≢ str "anonymous"
unfolding str ends_with_char
greeting-anonymous user h = false≢true (ap (ends_with_char b'>') (sym h) ∙ greeting-last user)

module _ {B W : Type 0} (is_get : Text → ServiceRequest → Bool) (unrouted : ServiceRequest → B)
    (decode : Text → Option (List ℕ)) (to_str : List ℕ → Option Text) (g : AuthGateway User Scope W)
    (request : ServiceRequest) where
  routed-page :
      (extensions : Option User) (w w' : W) (text : Text)
      → routed is_get unrouted request extensions w ≡ (page text, w')
      → text ≡ whoami extensions
  unfolding routed
  routed-page extensions w w' text h =
      elim (Bool-cases (is_get (str "/health") request || is_get (str "/config") request)) [
        | inl b ↦ cc (rw (b, routed) at (ap (λ r. r.0) h))
        | inr b ↦ cc (rw (b, routed) at (ap (λ r. r.0) h))
      ]

  health :
      g.scopes ≡ scopes
      → is_public (g.scopes.resolve (of_request to_str request)) ≡ true
      → starts_with request.path (str "/health") ≡ true
  health resolver p =
      let public : is_public (resolve (of_request to_str request)) ≡ true =
        subst (λ x. is_public (x.resolve (of_request to_str request)) ≡ true) resolver p in
      subst (λ path. starts_with path (str "/health") ≡ true) (of_request-path to_str request)
        (resolve-public (of_request to_str request) public)

  -- The page greets the user that the gateway authenticated, or an anonymous visitor of a path that
  -- starts with `/health`.
  abbrev pub Greets : W → Text → Type 0
  Greets w text =
      ((user : User) × ((gateway_authenticate decode g (of_request to_str request) w).0
          ≡ ok (some user))
        × (text ≡ greeting user)
        × (text ≢ str "anonymous"))
      ⊎ ((starts_with request.path (str "/health") ≡ true) × (text ≡ str "anonymous"))

  -- Whatever the chain of the gateway, a page that the handler answers greets the user whom the
  -- gateway authenticated; or the path of the request starts with `/health`, and the page greets an
  -- anonymous visitor, as it does no user.
  pub app-Greets :
      (w w' : W) (text : Text)
      → g.scopes ≡ scopes
      → app is_get unrouted decode to_str g request w ≡ (ok (handled (page text)), w')
      → Greets w text
  unfolding app new
  app-Greets w w' text resolver h =
      let v = (gateway_authenticate decode g (of_request to_str request) w).1 in
      elim (call-handled decode to_str (λ user _. some user) (new g) (routed is_get unrouted)
        request none w w' (page text) h) [
          | inl (user, authenticated, served) ↦
              let greets = routed-page (some user) v w' text served in
              inl (user, authenticated, greets, λ e. greeting-anonymous user (sym greets ∙ e))
          | inr (p, served) ↦ inr (health resolver p, routed-page none v w' text served)
        ]
