-- ===== src/ActixService/Startup.antt =====
-- examples/actix_service.rs: which gateway the service starts with, and when it does not start.
use authn_kit.Prelude.{
  ◌≡◌, ◌⊎◌, inl, inr, refl, true, Option, none, some, List, [], ◌∷◌, Option-cases, sym, ap, ◌∙◌,
}
use authn_kit.Text.{Text, str, trim_start, trim_end, is_whitespace, ends_with_char}
use authn_kit.Error.{AuthError}
use authn_kit.Effect.{Result, ok, err, panic, lift}
use authn_kit.Effect.Laws.{bind-ok, ok_inj}
use authn_kit.Env.{EnvConfig, with_prefix, get, require, is_set, oidc_config}
use authn_kit.Env.Laws.{require-inr}
use authn_kit.Builder.{new_builder, add, with_if, build}
use authn_kit.Authenticator.{Authenticator, optional, with, chain_is_empty}
use authn_kit.Gateway.{AuthGateway}
use authn_kit.Gateway
use authn_kit.Oidc.Config.{OidcConfig}
use authn_kit.Oidc.Provider.{OidcProvider}
use authn_kit.Oidc.Login
use authn_kit.Mechanisms.Disabled.{development, disabled}
use authn_kit.Mechanisms.Bearer.{bearer_authenticator}
use authn_kit.Mechanisms.Session.{session_authenticator, with_login_redirect}
use authn_kit.Mechanisms.Session
use authn_kit.Mechanisms.ApiToken.{ApiTokenAuthenticator, api_token}
use authn_kit.ActixService.{User, Scope, service_scope, try_from, scopes}
use authn_kit.ActixService.Wiring.{
  Surroundings, expect, expected, ok_flatten, api_tokens, built, development_gateway, chain_of,
  discovered, provider_gateway, gateway_of, gateway,
}

expect-ok :
    {E A : Type 0} (show : E → Text) (message : Text) (r : E ⊎ A) (a : A)
    → expect show message r ≡ ok a
    → r ≡ inr a
expect-ok show message (inl e) a h = cc
expect-ok show message (inr b) a h = cc

expected-ok :
    {A : Type 0} (show : AuthError → Text) (message : Text) (r : Result A) (a : A)
    → expected show message r ≡ ok a
    → r ≡ ok a
expected-ok show message (ok b) a h = cc
expected-ok show message (err e) a h = cc
expected-ok show message (panic t) a h = cc

module _ {Metadata Client IdToken Value Challenge Request Response W : Type 0}
    (s : Surroundings Metadata Client IdToken Value Challenge Request Response W) where
  -- the environment of the service
  abbrev pub env : EnvConfig
  env = record { prefix = str "AUTHN_" }

  -- the issuer that is configured, if its variable has a value
  abbrev pub issuer : Option Text
  issuer = ok_flatten (get s.var env (str "OIDC_ISSUER_URL"))

  env_lem : with_prefix (str "AUTHN_") ≡ inr env
  unfolding with_prefix str trim_start trim_end is_whitespace ends_with_char
  env_lem = refl

  gateway_env : (w : W) → gateway s w ≡ gateway_of s env w
  unfolding gateway
  gateway_env w = rw env_lem refl

  pub without_issuer : (w : W) → issuer ≡ none → gateway s w ≡ development_gateway s w
  unfolding gateway_of
  without_issuer w h = gateway_env w ∙ rw (h, gateway_of) refl

  pub with_issuer : (w : W) (i : Text) → issuer ≡ some i → gateway s w ≡ provider_gateway s env w
  unfolding gateway_of
  with_issuer w i h = gateway_env w ∙ rw (h, gateway_of) refl

  -- what the gateway of a chain is
  abbrev pub gateway_with : List (Authenticator User Scope W) → AuthGateway User Scope W
  gateway_with authenticators =
      Gateway.new scopes (record { authenticators = authenticators; policy = optional })

  abbrev pub session_of : OidcProvider Metadata Client W → Authenticator User Scope W
  session_of provider =
      session_authenticator s.library s.clock s.debug s.encoding s.endpoint try_from
        (with_login_redirect (Login.new provider) (Session.new provider))

  abbrev pub bearer_of : OidcProvider Metadata Client W → Authenticator User Scope W
  bearer_of provider = bearer_authenticator s.library s.clock try_from provider

  abbrev pub keys_of : ApiTokenAuthenticator User Value W → Authenticator User Scope W
  keys_of keys = api_token s.ct_eq s.hash s.clock try_from keys

  -- the gateway of development
  pub development_gateway_lem :
      (w : W)
      → development_gateway s w
        ≡ (ok (gateway_with (disabled {Value = Value} try_from development ∷ [])), w)
  unfolding development_gateway built add new_builder with build chain_is_empty
  development_gateway_lem w = refl

  -- What a gateway with a provider was made of.
  pub record IsProtected (w : W) (g : AuthGateway User Scope W) : Type 0 where
    pub config : OidcConfig
    pub provider : OidcProvider Metadata Client W
    pub reached : W
    pub keys : ApiTokenAuthenticator User Value W
    pub prefix : Text
    pub configured : oidc_config s.var env s.parse_url ≡ inr config
    pub found : (discovered s config w).0 ≡ ok provider
    pub marked : get s.var env (str "API_TOKEN_PREFIX") ≡ inr (some prefix)
    pub made : (api_tokens s env provider reached).0 ≡ ok keys
    pub chained : g ≡ gateway_with (keys_of keys ∷ bearer_of provider ∷ session_of provider ∷ [])

  api_tokens-prefix :
      (provider : OidcProvider Metadata Client W) (keys : ApiTokenAuthenticator User Value W)
      (w : W)
      → (api_tokens s env provider w).0 ≡ ok keys
      → (prefix : Text) × (get s.var env (str "API_TOKEN_PREFIX") ≡ inr (some prefix))
  unfolding api_tokens
  api_tokens-prefix provider keys w h =
      let (prefix, found, rest) =
        bind-ok (lift (expect s.debug_env _ (require s.var env (str "API_TOKEN_PREFIX")))) _ w keys
          h in
      (prefix, require-inr s.var env (str "API_TOKEN_PREFIX") prefix (expect-ok _ _ _ prefix found))

  set_lem :
      (suffix raw : Text) → get s.var env suffix ≡ inr (some raw) → is_set s.var env suffix ≡ true
  unfolding is_set
  set_lem suffix raw h = rw h refl

  chain_of_lem :
      (provider : OidcProvider Metadata Client W) (keys : ApiTokenAuthenticator User Value W)
      (prefix : Text)
      → get s.var env (str "API_TOKEN_PREFIX") ≡ inr (some prefix)
      → build (chain_of s env provider keys)
        ≡ ok (gateway_with (keys_of keys ∷ bearer_of provider ∷ session_of provider ∷ []))
  unfolding chain_of with_if add new_builder with build chain_is_empty
  chain_of_lem provider keys prefix h =
      rw (set_lem (str "API_TOKEN_PREFIX") prefix h, chain_of, with_if) refl

  provider_gateway-IsProtected :
      (w : W) (g : AuthGateway User Scope W) → (provider_gateway s env w).0 ≡ ok g → IsProtected w g
  unfolding provider_gateway
  provider_gateway-IsProtected w g h =
      let (config, configured, h₁) =
        bind-ok (lift (expect s.debug_env _ (oidc_config s.var env s.parse_url))) _ w g h in
      let (provider, found, h₂) = bind-ok (discovered s config) _ w g h₁ in
      let (keys, made, h₃) = bind-ok (api_tokens s env provider) _ _ g h₂ in
      let (prefix, marked) = api_tokens-prefix provider keys _ made in
      record {
        config = config;
        provider = provider;
        reached = (discovered s config w).1;
        keys = keys;
        prefix = prefix;
        configured = expect-ok _ _ _ config configured;
        found = found;
        marked = marked;
        made = made;
        chained = ok_inj (sym (expected-ok _ _ _ g h₃) ∙ chain_of_lem provider keys prefix marked);
      }

  -- Which gateways the service starts with.
  pub data IsStarted (w : W) (g : AuthGateway User Scope W) : Type 0 where
    unprotected :
        issuer ≡ none
        → g ≡ gateway_with (disabled {Value = Value} try_from development ∷ [])
        → IsStarted w g
    protected : {i : Text} → issuer ≡ some i → IsProtected w g → IsStarted w g

  -- The service starts with one of two gateways. Where the variable of the issuer has no value, its
  -- only authenticator is the disabled one. Otherwise the configuration could be read, the provider
  -- was discovered, the prefix of keys is set and the keys' authenticator was made, and the chain
  -- asks that for keys, then the one for bearer tokens, then the one for sessions, of that provider.
  pub gateway-IsStarted :
      (w : W) (g : AuthGateway User Scope W) → (gateway s w).0 ≡ ok g → IsStarted w g
  gateway-IsStarted w g h = elim (Option-cases issuer) [
    | inl n ↦
        unprotected n
          (ok_inj (sym h ∙ ap (λ r. r.0) (without_issuer w n ∙ development_gateway_lem w)))
    | inr (i, e) ↦
        protected e (provider_gateway-IsProtected w g (ap (λ r. r.0) (sym (with_issuer w i e)) ∙ h))
  ]

  -- With an issuer, the service does not start unless the prefix of keys is set, although the
  -- authenticator for keys is registered only if it is.
  pub gateway-prefix :
      (w : W) (i : Text)
      → issuer ≡ some i
      → get s.var env (str "API_TOKEN_PREFIX") ≡ inr none
      → ¬ ((g : AuthGateway User Scope W) × ((gateway s w).0 ≡ ok g))
  gateway-prefix w i h n (g, started) = elim (gateway-IsStarted w g started) [
    | unprotected e _ ↦ cc (e, h)
    | protected _ p ↦ cc (p.marked, n)
  ]
