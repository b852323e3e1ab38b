-- ===== src/Adapters.antt =====
-- src/adapters: the bindings to web frameworks, whose requests and responses are parameters.
pub mod Axum
pub mod Cookies
pub mod Actix
pub mod Middleware
pub mod Responses
use authn_kit.Prelude.{ℕ, Option, none, some, List, [], ◌∷◌}
use authn_kit.Text.{Text}
use authn_kit.Request.{AuthRequest, with_header, with_cookie}

-- `for (name, value) in headers { if let Ok(value) = value.to_str() { builder = builder.header(..) } }`,
-- where `to_str` is that of a header's value, which has to be visible ASCII.
unfoldable pub with_headers :
    (List ℕ → Option Text) → List (Text × List ℕ) → AuthRequest → AuthRequest
unfolding with_header
with_headers to_str [] r = r
with_headers to_str ((name, value) ∷ headers) r = elim (to_str value) [
  | none ↦ with_headers to_str headers r
  | some text ↦ with_headers to_str headers (with_header name text r)
]

-- `for (name, value) in cookies { builder = builder.cookie(name, value); }`
unfoldable pub with_cookies : List (Text × Text) → AuthRequest → AuthRequest
unfolding with_cookie
with_cookies [] r = r
with_cookies ((name, value) ∷ cookies) r = with_cookies cookies (with_cookie name value r)
