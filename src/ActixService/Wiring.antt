-- ===== src/ActixService/Wiring.antt =====
-- examples/actix_service.rs, `main` and `api_tokens`: the gateway that the service runs with, of the
-- variables of the environment. An `expect` panics with its message and the error's `Debug`.
use authn_kit.Prelude.{ℕ, Bool, ◌++◌, ◌⊎◌, inl, inr, Option, none, some, List, or_else, get_or}
use authn_kit.Text.{Text, str}
use authn_kit.Error.{AuthError}
use authn_kit.Effect.{Result, ok, err, panic, M, pure, lift, ◌>>=◌, Cell, Clock}
use authn_kit.Env.{Var, EnvError, EnvConfig, with_prefix, get, require, is_set, oidc_config}
use authn_kit.Cache.{CredentialCache}
use authn_kit.Builder.{AuthnBuilder, new_builder, add, with_if, build}
use authn_kit.Gateway.{AuthGateway}
use authn_kit.Oidc.Config.{OidcConfig}
use authn_kit.Oidc.Provider.{Library, OidcProvider, Snapshot, discover, snapshot}
use authn_kit.Oidc.Metadata.{IntrospectionMetadata, introspection_endpoint}
use authn_kit.Oidc.Login.{Encoding, AuthorizationEndpoint}
use authn_kit.Oidc.Login
use authn_kit.Mechanisms.Disabled.{development, disabled}
use authn_kit.Mechanisms.Bearer.{bearer_authenticator}
use authn_kit.Mechanisms.Session.{session_authenticator, with_login_redirect}
use authn_kit.Mechanisms.Session
use authn_kit.Mechanisms.Introspection.{Json, Http, with_client, introspection_validator}
use authn_kit.Mechanisms.ApiToken.{
  StaticTokenSpec, StaticTokenError, ApiTokenAuthenticator, from_json, with_fallback, api_token,
}
use authn_kit.ActixService.{User, Scope, service_scope, try_from, scopes}

-- What the service takes from elsewhere: the environment, the crates that the mechanisms use, and the
-- places that the new provider and the new cache get in the world.
pub record Surroundings (Metadata Client IdToken Value Challenge Request Response W : Type 0)
    : Type 0 where
  pub var : Text → Var
  pub parse_url : Text → Text ⊎ Text
  pub parse_specs : Text → Text ⊎ List StaticTokenSpec
  pub client_build : Text ⊎ Unit {0}
  pub library : Library Metadata Client IdToken Value W
  pub additional_metadata : Metadata → IntrospectionMetadata
  pub endpoint : AuthorizationEndpoint Client Challenge Request W
  pub encoding : Encoding
  pub json : Json Value
  pub http : Http Response Value W
  pub clock : Clock W
  pub ct_eq : List ℕ → List ℕ → Bool
  pub hash : Text → List ℕ
  pub debug : Text → Text
  pub debug_env : EnvError → Text
  pub debug_auth : AuthError → Text
  pub debug_tokens : StaticTokenError → Text
  pub state : Cell W (Snapshot Metadata Client)
  pub wait : W → W
  pub cache : Cell W (CredentialCache User)

-- `expect(message)`, of what is returned at once, and of a call of the crate
abbrev pub expect : {E A : Type 0} → (E → Text) → Text → E ⊎ A → Result A
expect show message (inl e) = panic (message ++ str ": " ++ show e)
expect show message (inr a) = ok a

abbrev pub expected : {A : Type 0} → (AuthError → Text) → Text → Result A → Result A
expected show message (ok a) = ok a
expected show message (err e) = panic (message ++ str ": " ++ show e)
expected show message (panic t) = panic t

-- `.ok().flatten()`
abbrev pub ok_flatten : EnvError ⊎ Option Text → Option Text
ok_flatten (inl e) = none
ok_flatten (inr value) = value

module _ {Metadata Client IdToken Value Challenge Request Response W : Type 0}
    (s : Surroundings Metadata Client IdToken Value Challenge Request Response W) where
  -- The `if let` on the endpoint and the header.
  abbrev pub with_introspection :
      Option Text
      → EnvError ⊎ Text
      → ApiTokenAuthenticator User Value W
      → ApiTokenAuthenticator User Value W
  with_introspection (some endpoint) (inr header) a =
      with_fallback (introspection_validator s.json s.http (with_client endpoint header)) a
  with_introspection _ _ a = a

  unfoldable pub api_tokens :
      EnvConfig → OidcProvider Metadata Client W → M W (ApiTokenAuthenticator User Value W)
  unfolding get require from_json with_fallback with_client introspection_endpoint
  api_tokens env provider = do
    prefix ←
        lift
          (expect s.debug_env (str "api token prefix") (require s.var env (str "API_TOKEN_PREFIX")))
    let statics = get_or (ok_flatten (get s.var env (str "API_STATIC_TOKENS"))) List.[]
    authenticator ← lift (
        expect s.debug_tokens (str "static token list")
          (from_json s.parse_specs s.cache prefix statics))
    current ← snapshot s.library s.clock provider
    let endpoint =
        or_else (ok_flatten (get s.var env (str "INTROSPECTION_ENDPOINT")))
          (introspection_endpoint s.additional_metadata current.state)
    pure (
        with_introspection endpoint (require s.var env (str "INTROSPECTION_AUTH_HEADER"))
          authenticator)

  -- `builder.build().expect("chain is non-empty")`
  unfoldable pub built : AuthnBuilder User Scope W → M W (AuthGateway User Scope W)
  unfolding build
  built builder = lift (expected s.debug_auth (str "chain is non-empty") (build builder))

  unfoldable pub development_gateway : M W (AuthGateway User Scope W)
  unfolding add new_builder disabled development built
  development_gateway =
      built (add (disabled {Value = Value} try_from development) (new_builder scopes))

  -- The three authenticators, the first of them if the prefix of its keys is set.
  unfoldable pub chain_of :
      EnvConfig
      → OidcProvider Metadata Client W
      → ApiTokenAuthenticator User Value W
      → AuthnBuilder User Scope W
  unfolding add new_builder with_if is_set api_token bearer_authenticator session_authenticator
      with_login_redirect Login.new Session.new
  chain_of env provider keys =
      let login = Login.new provider in
      let session = with_login_redirect login (Session.new provider) in
      add (session_authenticator s.library s.clock s.debug s.encoding s.endpoint try_from session) (
        add (bearer_authenticator s.library s.clock try_from provider) (
          with_if (is_set s.var env (str "API_TOKEN_PREFIX"))
            (api_token s.ct_eq s.hash s.clock try_from keys) (new_builder scopes)))

  unfoldable pub discovered : OidcConfig → M W (OidcProvider Metadata Client W)
  unfolding discover
  discovered config w =
      let (r, w') = discover s.library s.clock s.client_build s.state s.wait config w in
      (expected s.debug_auth (str "discovery") r, w')

  -- The keys' authenticator is an argument of `with_if`: it is made before the condition is tested.
  unfoldable pub provider_gateway : EnvConfig → M W (AuthGateway User Scope W)
  unfolding oidc_config discovered api_tokens chain_of built
  provider_gateway env = do
    config ←
        lift (expect s.debug_env (str "oidc configuration") (oidc_config s.var env s.parse_url))
    provider ← discovered config
    keys ← api_tokens env provider
    built (chain_of env provider keys)

  unfoldable pub gateway_of : EnvConfig → M W (AuthGateway User Scope W)
  unfolding get development_gateway provider_gateway
  gateway_of env = elim (ok_flatten (get s.var env (str "OIDC_ISSUER_URL"))) [
    | none ↦ development_gateway
    | some issuer ↦ provider_gateway env
  ]

  unfoldable pub gateway : M W (AuthGateway User Scope W)
  unfolding gateway_of with_prefix
  gateway = do
    env ← lift (expect s.debug_env (str "prefix is non-empty") (with_prefix (str "AUTHN_")))
    gateway_of env
