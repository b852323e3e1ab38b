-- ===== src/ActixService/Development.antt =====
-- examples/actix_service.rs: what a service without an issuer makes of a request.
use authn_kit.Prelude.{
  ℕ, ◌≡◌, ◌⊎◌, inl, inr, refl, false, Option, none, some, ◌∙◌, List, [], ◌∷◌, arith,
}
use authn_kit.Text.{Text, str, starts_with}
use authn_kit.Effect.{ok}
use authn_kit.Env.{not_present, not_unicode, get, name}
use authn_kit.Request.{AuthRequest}
use authn_kit.Claims.{with_email, with_preferred_username, with_subject, best_effort_username}
use authn_kit.Claims
use authn_kit.Gateway.{AuthGateway, answer, authenticate_with, gateway_authenticate}
use authn_kit.Gateway
use authn_kit.Authenticator.{consult, authenticate}
use authn_kit.Mechanisms.Disabled.{development, disabled}
use authn_kit.Mechanisms.Disabled
use authn_kit.ActixService.{User, Scope, service_scope, try_from, human_user, resolve, is_public}
use authn_kit.ActixService.Wiring.{Surroundings, gateway}
use authn_kit.ActixService.Startup.{issuer, gateway_with, without_issuer, development_gateway_lem}

-- the user that everyone is in development
abbrev pub everyone : User
everyone = record { email = str "authn-disabled@invalid"; username = str "authn-disabled" }

resolve-protected :
    (request : AuthRequest)
    → starts_with request.path (str "/health") ≡ false
    → is_public (resolve request) ≡ false
unfolding resolve is_public
resolve-protected request h = ground (arith, h)

module _ {Metadata Client IdToken Value Challenge Request Response W : Type 0}
    (s : Surroundings Metadata Client IdToken Value Challenge Request Response W) where
  unset :
      (s.var (str "AUTHN_OIDC_ISSUER_URL") ≡ not_present)
        ⊎ (s.var (str "AUTHN_OIDC_ISSUER_URL") ≡ not_unicode)
      → issuer s ≡ none
  unfolding get name str
  unset (inl h) = rw h refl
  unset (inr h) = rw h refl

  passes :
      (decode : Text → Option (List ℕ)) (request : AuthRequest) (v : W)
      → starts_with request.path (str "/health") ≡ false
      → gateway_authenticate decode
          (gateway_with s (disabled {Value = Value} try_from development ∷ []))
          request
          v
        ≡ (ok (some everyone), v)
  unfolding gateway_authenticate authenticate_with authenticate consult answer disabled
      Disabled.authenticate development Gateway.new try_from human_user with_email
      with_preferred_username with_subject Claims.new best_effort_username
  passes decode request v h = rw (resolve-protected request h) refl

  -- Where the variable of the issuer is not set, and also where it is set to what is no Unicode, the
  -- service starts, and every request whose path does not start with `/health` is authenticated as
  -- the user `authn-disabled`, whatever credential it has, and nothing is changed.
  pub gateway-development :
      (decode : Text → Option (List ℕ)) (w v : W) (request : AuthRequest)
      → (s.var (str "AUTHN_OIDC_ISSUER_URL") ≡ not_present)
        ⊎ (s.var (str "AUTHN_OIDC_ISSUER_URL") ≡ not_unicode)
      → starts_with request.path (str "/health") ≡ false
      → (g : AuthGateway User Scope W) × (gateway s w ≡ (ok g, w))
        × (gateway_authenticate decode g request v ≡ (ok (some everyone), v))
  gateway-development decode w v request h k = (
    gateway_with s (disabled {Value = Value} try_from development ∷ []),
    without_issuer s w (unset h) ∙ development_gateway_lem s w,
    passes decode request v k,
  )
