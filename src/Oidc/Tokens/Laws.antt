-- ===== src/Oidc/Tokens/Laws.antt =====
-- The calls of the token endpoint that succeed.
use authn_kit.Prelude.{◌≡◌, refl, ◌⊎◌, inl, inr, Option, none, some}
use authn_kit.Text.{Text}
use authn_kit.Effect.{ok}
use authn_kit.Oidc.Error.{RequestTokenError}
use authn_kit.Oidc.Tokens.{TokenEndpoint, started, answered, exchange, carried}

module _ {Client Request Response W : Type 0}
    (endpoint : TokenEndpoint Client Request Response W) where
  pub started-ok :
      (r : Text ⊎ Request) (request : Request) (w : W)
      → (started endpoint r w).0 ≡ ok request
      → (r ≡ inr request) × ((started endpoint r w).1 ≡ w)
  started-ok (inl e) request w h = cc
  started-ok (inr r) request w h = (cc, refl)

  pub answered-ok :
      (r : RequestTokenError ⊎ Response) (response : Response) (w : W)
      → (answered endpoint r w).0 ≡ ok response
      → (r ≡ inr response) × ((answered endpoint r w).1 ≡ w)
  answered-ok (inl e) response w h = cc
  answered-ok (inr r) response w h = (cc, refl)

  pub carried-ok :
      (o : Option Text) (token : Text) (w : W)
      → (carried endpoint o w).0 ≡ ok token
      → (o ≡ some token) × ((carried endpoint o w).1 ≡ w)
  carried-ok none token w h = cc
  carried-ok (some t) token w h = (cc, refl)

  pub exchange-ok :
      (request : Request) (response : Response) (w : W)
      → (exchange endpoint request w).0 ≡ ok response
      → ((endpoint.request_async request w).0 ≡ inr response)
        × ((exchange endpoint request w).1 ≡ (endpoint.request_async request w).1)
  exchange-ok request response w h = answered-ok (endpoint.request_async request w).0 response _ h
