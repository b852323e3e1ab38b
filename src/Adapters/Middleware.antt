-- ===== src/Adapters/Middleware.antt =====
-- src/adapters/actix.rs: the middleware. `X` are the extensions of a request, into which `insert`
-- puts the user, and `B` is what the service that is wrapped answers.
use authn_kit.Prelude.{ℕ, ◌≡◌, ◌⊎◌, inl, inr, refl, true, Option, none, some, List, ap}
use authn_kit.Text.{Text}
use authn_kit.Effect.{Result, ok, err, panic, M, pure, lift}
use authn_kit.Credential.{from_request}
use authn_kit.Scope.{AuthScope}
use authn_kit.Gateway.{AuthGateway, gateway_authenticate}
use authn_kit.Gateway.Laws.{authenticate_with-anonymous}
use authn_kit.Adapters.Actix.{ServiceRequest, HttpResponse, of_request, error_to_response}

pub record ActixAuthn (U S X W : Type 0) : Type 0 where
  pub gateway : AuthGateway U S W
  pub extensions : Option (U → X → X)

pub data Reply (B : Type 0) : Type 0 where
  handled : B → Reply B
  refused : HttpResponse → Reply B

module _ {U S X W : Type 0} where
  -- `new` and `from_arc`
  unfoldable pub new : AuthGateway U S W → ActixAuthn U S X W
  new gateway = record { gateway = gateway; extensions = none }

  unfoldable pub with_extensions : (U → X → X) → ActixAuthn U S X W → ActixAuthn U S X W
  with_extensions hook a = record a { extensions = some hook }

-- `if let Some(hook) = &hook { hook(&user, &mut extensions); }`
abbrev pub hooked : {U X : Type 0} → Option (U → X → X) → U → X → X
hooked none user extensions = extensions
hooked (some hook) user extensions = hook user extensions

reply_value :
    {B : Type 0} {b c : B} → ◌≡◌ {A = Result (Reply B)} (ok (handled b)) (ok (handled c)) → b ≡ c
reply_value h = cc

module _ {U S X B W : Type 0} ⦃s : AuthScope S⦄ (decode : Text → Option (List ℕ))
    (to_str : List ℕ → Option Text) (insert : U → X → X) (a : ActixAuthn U S X W)
    (service : ServiceRequest → X → W → B × W) where
  abbrev pub served : ServiceRequest → X → M W (Reply B)
  served request extensions w = let (b, w') = service request extensions w in (ok (handled b), w')

  -- the match on what the gateway answers
  unfoldable pub respond : ServiceRequest → X → Result (Option U) → M W (Reply B)
  unfolding error_to_response
  respond request extensions (ok (some user)) =
      served request (insert user (hooked a.extensions user extensions))
  respond request extensions (ok none) = served request extensions
  respond request extensions (err error) = pure (refused (error_to_response error))
  respond request extensions (panic t) = lift (panic t)

  unfoldable pub call : ServiceRequest → X → M W (Reply B)
  unfolding respond of_request
  call request extensions w =
      let (r, w') = gateway_authenticate decode a.gateway (of_request to_str request) w in
      respond request extensions r w'

  -- What the service answers stands behind what is handled: it ran with the user that the gateway
  -- authenticated, or without one where that let the request pass.
  unhandled :
      {request : ServiceRequest} {extensions : X} {w w' : W} {b : B}
      → served request extensions w ≡ (ok (handled b), w')
      → service request extensions w ≡ (b, w')
  unhandled h = λ i. (reply_value (ap (λ r. r.0) h) i, (h i).1)

  respond-handled :
      (request : ServiceRequest) (extensions : X) (r : Result (Option U)) (w w' : W) (b : B)
      → respond request extensions r w ≡ (ok (handled b), w')
      → ((user : U) × (r ≡ ok (some user))
          × (service request (insert user (hooked a.extensions user extensions)) w ≡ (b, w')))
        ⊎ ((r ≡ ok none) × (service request extensions w ≡ (b, w')))
  unfolding respond
  respond-handled request extensions (ok (some user)) w w' b h = inl (user, refl, unhandled h)
  respond-handled request extensions (ok none) w w' b h = inr (refl, unhandled h)
  respond-handled request extensions (err error) w w' b h = cc (ap (λ r. r.0) h)
  respond-handled request extensions (panic t) w w' b h = cc (ap (λ r. r.0) h)

  public_of :
      (request : ServiceRequest) (w' w : W)
      → gateway_authenticate decode a.gateway (of_request to_str request) w ≡ (ok none, w')
      → s.is_public (a.gateway.scopes.resolve (of_request to_str request)) ≡ true
  unfolding gateway_authenticate
  public_of request w' w h =
      authenticate_with-anonymous a.gateway (of_request to_str request)
        (from_request decode (of_request to_str request)) w w' h

  -- The wrapped service answers a request only if the gateway authenticated a user, whom it then finds
  -- in the extensions, behind what the hook put there, or if the scope of the request is public; the
  -- extensions are then those of the request.
  pub call-handled :
      (request : ServiceRequest) (extensions : X) (w w' : W) (b : B)
      → call request extensions w ≡ (ok (handled b), w')
      → (let answer = gateway_authenticate decode a.gateway (of_request to_str request) w in
          ((user : U) × (answer.0 ≡ ok (some user))
            × (service request (insert user (hooked a.extensions user extensions)) answer.1
                ≡ (b, w')))
          ⊎ ((s.is_public (a.gateway.scopes.resolve (of_request to_str request)) ≡ true)
              × (service request extensions answer.1 ≡ (b, w'))))
  unfolding call
  call-handled request extensions w w' b h =
      let answer = gateway_authenticate decode a.gateway (of_request to_str request) w in
      elim (respond-handled request extensions answer.0 answer.1 w' b h) [
        | inl passed ↦ inl passed
        | inr (n, served) ↦ inr (public_of request answer.1 w (λ i. (n i, answer.1)), served)
      ]
