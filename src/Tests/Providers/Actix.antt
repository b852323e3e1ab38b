-- ===== src/Tests/Providers/Actix.antt =====
-- The theorems on the example service, with a provider and without one.
use authn_kit.Prelude.{
  ◌*◌, ◌≡◌, ◌↔◌, ◌⊎◌, inl, inr, refl, Bool, true, false, none, some, [], ◌∷◌, ◌&&◌, if◌then◌else◌,
}
use authn_kit.Text.{
  Text, str, text_eq, starts_with, contains, trim_start, trim_end, is_whitespace, strip_prefix,
  split_once, lower, upper,
}
use authn_kit.Text.Utf8.{as_bytes}
use authn_kit.Map.{lookup, insert}
use authn_kit.Effect.{ok, M, Cell}
use authn_kit.Env.{Var, present, not_present, not_unicode, get}
use authn_kit.Cache.{CredentialCache}
use authn_kit.Cache
use authn_kit.Claims.{
  IdentityClaims, static_token, client_credentials, best_effort_username, with_subject, with_email,
  with_preferred_username,
}
use authn_kit.Claims
use authn_kit.Cookie.{second}
use authn_kit.Request.{AuthRequest, builder, header, with_header, with_method}
use authn_kit.Credential
use authn_kit.Credential.{from_authorization_header}
use authn_kit.Adapters.{with_headers, with_cookies}
use authn_kit.Oidc.Login
use authn_kit.Oidc.Session.{session}
use authn_kit.Outcome.{Verdict}
use authn_kit.Gateway
use authn_kit.Gateway.{AuthGateway, answer, authenticate_with, gateway_authenticate}
use authn_kit.Authenticator.{AuthContext, consult, authenticate, chain_is_empty, with}
use authn_kit.Oidc.Config.{new_config}
use authn_kit.Oidc.Login.{authorize}
use authn_kit.Adapters.Actix.{ServiceRequest, of_request}
use authn_kit.Adapters.Middleware.{Reply, handled}
use authn_kit.Mechanisms.Introspection.{Json, Http}
use authn_kit.Mechanisms.ApiToken.{
  StaticTokenSpec, ApiTokenAuthenticator, api_token, authenticate_key, matched, permits, matches,
}
use authn_kit.Oidc.Provider.{OidcProvider}
use authn_kit.ActixService.{
  User, Scope, service_scope, is_public, resolve, cache_discriminator, whoami, routed, human_user,
  global, greeting, Answer, page, app, machine, try_from,
}
use authn_kit.ActixService.Wiring.{Surroundings, gateway}
use authn_kit.ActixService.Startup.{
  gateway_with, keys_of, bearer_of, session_of, IsStarted, gateway-IsStarted, gateway-prefix,
}
use authn_kit.ActixService.Development.{everyone, gateway-development}
use authn_kit.ActixService.Users.{Names, try_from_iff}
use authn_kit.ActixService.Vouched.{VouchedBy, app-VouchedBy}
use authn_kit.ActixService.Sessions.{session_of-login}
use authn_kit.Tests.{small, text_eq-IsConstantTimeEq}
use authn_kit.Tests.Providers.{Site, site_clock, library, authorization, encoding, day}

-- A cache that keeps nothing.
abbrev users : Cell Site (CredentialCache User)
users = record { load = λ w. Cache.new small; store = λ c w. w }

abbrev no_json : Json Text
no_json = record {
  as_object = λ v. none;
  as_bool = λ v. none;
  as_str = λ v. none;
  as_u64 = λ v. none;
}

abbrev no_http : Http (Unit {0}) Text Site
no_http = record {
  post_form = λ url authorization form w. (inl (str "down"), w);
  is_success = λ response. false;
  status = λ response. [];
  json = λ response w. (inl (str "empty"), w);
}

abbrev ann : StaticTokenSpec
ann = record { token = str "k1"; principal = str "ann"; email = none; scopes = none }

-- The variables that are set: those of the provider, and those of the keys.
abbrev provider_var : Text → Var
provider_var full =
    if text_eq full (str "AUTHN_OIDC_ISSUER_URL")
    then present (str "https://i")
    else if text_eq full (str "AUTHN_OIDC_CLIENT_ID")
    then present (str "id")
    else if text_eq full (str "AUTHN_OIDC_REDIRECT_URL")
    then present (str "https://a/cb")
    else not_present

abbrev keys_var : Text → Var
keys_var full =
    if text_eq full (str "AUTHN_API_TOKEN_PREFIX")
    then present (str "ak_")
    else if text_eq full (str "AUTHN_API_STATIC_TOKENS")
    then present (str "[ann]")
    else provider_var full

abbrev around : (Text → Var) → Surroundings Text Text Text Text Text Text (Unit {0}) Site
around var = record {
  var = var;
  parse_url = λ text. inr text;
  parse_specs = λ json. inr (ann ∷ []);
  client_build = inr tt;
  library = library;
  additional_metadata = λ metadata. record { introspection_endpoint = none };
  endpoint = authorization;
  encoding = encoding;
  json = no_json;
  http = no_http;
  clock = site_clock;
  ct_eq = text_eq;
  hash = λ text. text;
  debug = λ text. text;
  debug_env = λ e. [];
  debug_auth = λ e. [];
  debug_tokens = λ e. [];
  state = record { load = λ w. w.held; store = λ s w. record w { held = s } };
  wait = λ w. w;
  cache = users;
}

-- The service of no variables, and of one that is no Unicode.
abbrev bare : Surroundings Text Text Text Text Text Text (Unit {0}) Site
bare = around (λ full. not_unicode)

abbrev anywhere : AuthRequest
anywhere = record builder { path = str "/config" }

gateway-development_example :
    (g : AuthGateway User Scope Site) × (gateway bare day ≡ (ok g, day))
    × (gateway_authenticate (λ _. none) g anywhere day ≡ (ok (some everyone), day))
unfolding str starts_with
gateway-development_example = gateway-development bare (λ _. none) day day anywhere (inr refl) refl

abbrev keyless : Surroundings Text Text Text Text Text Text (Unit {0}) Site
keyless = around provider_var

settings : Unit {0}
unfolding str text_eq trim_start trim_end is_whitespace get authn_kit.Env.name
settings = tt

gateway-prefix_example : ¬ ((g : AuthGateway User Scope Site) × ((gateway keyless day).0 ≡ ok g))
unfolding settings
gateway-prefix_example = gateway-prefix keyless day (str "https://i") refl refl

abbrev shop : Surroundings Text Text Text Text Text Text (Unit {0}) Site
shop = around keys_var

abbrev keys : ApiTokenAuthenticator User Text Site
unfolding str Claims.new
keys = record {
  prefix = str "ak_";
  tokens =
      record {
        secret = str "k1";
        claims = record (Claims.new static_token) {
          subject = some (str "ann");
          preferred_username = some (str "ann");
          email = some (str "ann");
        };
        scopes = none;
      }
      ∷ [];
  fallback = none;
  cache = users;
  max_cache_ttl = 300 * second;
}

abbrev issued : OidcProvider Text Text Site
unfolding str
issued = record {
  config = record {
    issuer_url = str "https://i";
    client_id = str "id";
    client_secret = none;
    redirect_url = str "https://a/cb";
    scopes = str "openid" ∷ str "email" ∷ str "profile" ∷ [];
    min_refresh_interval = 30 * second;
    use_pkce = true;
  };
  state = shop.state;
  wait = λ w. w;
}

abbrev protected : AuthGateway User Scope Site
protected =
    gateway_with shop (keys_of shop keys ∷ bearer_of shop issued ∷ session_of shop issued ∷ [])

starts : (gateway shop day).0 ≡ ok protected
unfolding settings gateway new_config chain_is_empty with authorize day Claims.new with_email
    with_preferred_username with_subject
starts = refl

gateway-IsStarted_example : IsStarted shop day protected
gateway-IsStarted_example = gateway-IsStarted shop day protected starts

abbrev is_get : Text → ServiceRequest → Bool
is_get path request = text_eq request.method (str "GET") && text_eq request.path path

-- a request of the configuration with the key `k1`
abbrev incoming : ServiceRequest
incoming = record {
  method = str "GET";
  path = str "/config";
  match_pattern = none;
  query_string = [];
  headers = (str "authorization", str "Bearer ak_k1") ∷ [];
  cookies = none;
}

abbrev served : M Site (Reply (Answer (Unit {0})))
unfolding app
served = app is_get (λ request. tt) (λ t. none) (λ bytes. some bytes) protected incoming

serves : served day ≡ (ok (handled (page (str "ann <ann>"))), day)
unfolding settings served day starts_with contains gateway_authenticate authenticate_with
    authenticate consult answer is_public resolve Gateway.new header lookup insert lower upper
    Credential.from_request from_authorization_header split_once strip_prefix keys api_token
    authenticate_key matched permits matches as_bytes cache_discriminator greeting whoami routed
    with_headers with_header with_cookies with_method try_from human_user best_effort_username
    Claims.new
serves = refl

app-VouchedBy_example :
    ((user : User) × VouchedBy shop text_eq-IsConstantTimeEq
        (λ t. none)
        day
        protected
        (of_request (λ bytes. some bytes) incoming)
        user
      × (str "ann <ann>" ≡ greeting user))
    ⊎ ((starts_with incoming.path (str "/health") ≡ true) × (str "ann <ann>" ≡ str "anonymous"))
unfolding settings served
app-VouchedBy_example =
    app-VouchedBy shop text_eq-IsConstantTimeEq (λ t. none) is_get (λ request. tt)
      (λ bytes. some bytes) day protected (str "https://i") incoming day day (str "ann <ann>") refl
      starts serves

abbrev robot : IdentityClaims Text
unfolding Claims.new
robot = record (Claims.new client_credentials) { client_id = some (str "ci") }

try_from_iff_example :
    (try_from robot ≡ inr (machine (str "ci"))) ↔ Names robot (machine (str "ci"))
try_from_iff_example = try_from_iff robot (machine (str "ci"))

-- a request after a login, with the cookie that the login set
abbrev returned : AuthContext Scope
returned = record {
  request = record builder { path = str "/config"; cookies = (str "session", str "t") ∷ [] };
  credential = Credential.none;
  scope = global;
}

session_of-login_example :
    ¬ (((session_of shop issued).authenticate returned day).0 ≡ ok (Verdict.authenticated everyone))
unfolding Login.new Login.with_codec session
session_of-login_example = session_of-login shop issued returned (str "t") day everyone refl
