-- ===== src/Tests/Services.antt =====
-- The theorems on introspection, on the environment and on the adapters.
use authn_kit.Prelude.{
  ℕ, suc, if◌then◌else◌, ◌*◌, ◌≡◌, ◌↔◌, ◌⊎◌, inr, refl, Bool, true, none, some, List, [], ◌∷◌,
}
use authn_kit.Text.{
  Text, str, text_eq, trim_start, trim_end, split_by, to_decimal, is_whitespace, lower,
}
use authn_kit.Map.{lookup, insert}
use authn_kit.Cookie.{second}
use authn_kit.Error.{status}
use authn_kit.Effect.{ok}
use authn_kit.Claims.{IdentityClaims, best_effort_username}
use authn_kit.Claims
use authn_kit.Request.{header, header_all, with_path, with_method}
use authn_kit.Credential.{from_request}
use authn_kit.Outcome.{Verdict}
use authn_kit.Authenticator.{Authenticator, optional, consult, authenticate}
use authn_kit.Gateway.{authenticate_with, answer, gateway_authenticate}
use authn_kit.Mechanisms.Introspection.{
  Json, Http, IntrospectionValidator, fill, identified, timed, claims_of_object,
  claims_from_response, read_response, validate,
}
use authn_kit.Mechanisms.Introspection.Validity.{IsAnswered, validate-IsAnswered}
use authn_kit.Adapters.{with_headers, with_cookies}
use authn_kit.Adapters.Actix.{ServiceRequest, of_request}
use authn_kit.Adapters.Axum.{cookies_of_value}
use authn_kit.Adapters.Cookies.{cookie_text, cookies_of_value-cookie_text}
use authn_kit.Adapters.Middleware.{ActixAuthn, hooked, respond, call, call-handled}
use authn_kit.Env.{
  Var, present, not_present, EnvConfig, name, get, require, parse, duration_secs, items, list,
  optional_settings, oidc_config,
}
use authn_kit.Env.Number.{parse_u64}
use authn_kit.Env.Settings.{IsConfigured}
use authn_kit.Env.Configured.{oidc_config_iff}
use authn_kit.Oidc.Config.{
  OidcConfig, new_config, with_scopes, with_client_secret, with_min_refresh_interval,
}
use authn_kit.Tests.{Realm, realm_scope, realms}

-- The JSON that the server answers with: an object of a flag and a name.
pub data Value : Type 0 where
  flag : Bool → Value
  string : Text → Value
  answered : Bool → Text → Value

abbrev members : Bool → Text → List (Text × Value)
members b s = (str "active", flag b) ∷ (str "sub", string s) ∷ []

abbrev json : Json Value
json = record {
  as_object = λ v. elim v [ answered b s ↦ some (members b s) | _ ↦ none ];
  as_bool = λ v. elim v [ flag b ↦ some b | _ ↦ none ];
  as_str = λ v. elim v [ string s ↦ some s | _ ↦ none ];
  as_u64 = λ v. none;
}

abbrev active : Bool → Value
active b = answered b (str "ann")

-- A key of the server is active; the world counts what is read.
abbrev http : Http Bool Value ℕ
http = record {
  post_form = λ url authorization form w. (inr true, suc w);
  is_success = λ response. response;
  status = λ response. str "500";
  json = λ response w. (inr (active response), suc w);
}

abbrev validator : IntrospectionValidator
validator = record { endpoint = str "https://i/introspect"; auth_header = str "Basic eA" }

program : Unit {0}
unfolding str text_eq lookup insert status best_effort_username Claims.new fill identified timed
    claims_of_object claims_from_response read_response validate mathlib.Core.Option.bind
program = tt

abbrev ann : IdentityClaims Value
ann = fill json (members true (str "ann"))

validate-IsAnswered_example :
    ((validate json http validator (str "k1") none 0).0 ≡ ok ann)
    ↔ IsAnswered json http validator (str "k1") 0 ann
validate-IsAnswered_example = validate-IsAnswered json http validator (str "k1") none 0 ann

validates : (validate json http validator (str "k1") none 0).0 ≡ ok ann
unfolding program
validates = refl

abbrev cookies : List (Text × Text)
cookies = (str "b", str "2=3") ∷ []

cookies_of_value-cookie_text_example :
    cookies_of_value (cookie_text (str "a", str "1") cookies) ≡ (str "a", str "1") ∷ cookies
unfolding str is_whitespace
cookies_of_value-cookie_text_example =
    cookies_of_value-cookie_text (str "a", str "1") cookies
      (
        (((refl, tt), (refl, tt), (refl, tt)), ((refl, tt), (refl, tt))),
        (
          (
            ((refl, tt), (refl, tt), (refl, tt)),
            ((refl, (refl, (refl, tt))), (refl, (refl, (refl, tt)))),
          ),
          tt,
        ),
      )

abbrev environment : EnvConfig
environment = record { prefix = str "APP_" }

abbrev var : Text → Var
var full =
    if text_eq full (str "APP_OIDC_MIN_REFRESH_SECS")
    then present (str "90")
    else if text_eq full (str "APP_OIDC_CLIENT_SECRET")
    then present (str "pw")
    else if text_eq full (str "APP_OIDC_ISSUER_URL")
    then present (str "https://i")
    else if text_eq full (str "APP_OIDC_CLIENT_ID")
    then present (str "id")
    else if text_eq full (str "APP_OIDC_REDIRECT_URL")
    then present (str "https://a/cb")
    else if text_eq full (str "APP_OIDC_SCOPES")
    then present (str "openid")
    else not_present

settings : Unit {0}
unfolding str text_eq trim_start trim_end is_whitespace split_by name get require parse
    duration_secs items list optional_settings oidc_config to_decimal parse_u64 new_config
    with_scopes with_client_secret with_min_refresh_interval
settings = tt

abbrev configured : OidcConfig
configured = record {
  issuer_url = str "https://i";
  client_id = str "id";
  client_secret = some (str "pw");
  redirect_url = str "https://a/cb";
  scopes = str "openid" ∷ [];
  min_refresh_interval = 90 * second;
  use_pkce = true;
}

oidc_config_iff_example :
    (oidc_config var environment (λ t. inr t) ≡ inr configured)
    ↔ IsConfigured var environment (λ t. inr t) configured
oidc_config_iff_example = oidc_config_iff var environment (λ t. inr t) configured

reads_configuration : oidc_config var environment (λ t. inr t) ≡ inr configured
unfolding settings
reads_configuration = refl

-- An authenticator that knows everybody, and a service that answers whom it serves.
abbrev knows : Authenticator Text Realm ℕ
knows = record {
  name = [];
  authenticate = λ ctx w. (ok (Verdict.authenticated (str "ann")), suc w);
}

abbrev adapter : ActixAuthn Text Realm (List Text) ℕ
adapter = record {
  gateway = record {
    scopes = realms;
    chain = record { authenticators = knows ∷ []; policy = optional };
  };
  extensions = some (λ user extensions. str "hook" ∷ extensions);
}

abbrev incoming : ServiceRequest
incoming = record {
  method = str "GET";
  path = str "/desk";
  match_pattern = none;
  query_string = [];
  headers = [];
  cookies = none;
}

abbrev service : ServiceRequest → List Text → ℕ → List Text × ℕ
service request extensions w = (extensions, suc w)

requests : Unit {0}
unfolding str text_eq lookup lower with_headers with_cookies of_request header header_all
    from_request consult authenticate answer authenticate_with gateway_authenticate respond call
    realm_scope with_path with_method
requests = tt

call-handled_example :
    (let answer =
        gateway_authenticate (λ _. none) adapter.gateway (of_request (λ _. none) incoming) 0 in
      ((user : Text) × (answer.0 ≡ ok (some user))
        × (service incoming (user ∷ hooked adapter.extensions user []) answer.1
            ≡ (str "ann" ∷ str "hook" ∷ [], 2)))
      ⊎ ((realm_scope.is_public (realms.resolve (of_request (λ _. none) incoming)) ≡ true)
          × (service incoming [] answer.1 ≡ (str "ann" ∷ str "hook" ∷ [], 2))))
unfolding requests
call-handled_example =
    call-handled (λ _. none) (λ _. none) (λ user extensions. user ∷ extensions) adapter service
      incoming [] 0 2 (str "ann" ∷ str "hook" ∷ []) refl
