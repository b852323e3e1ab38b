-- ===== src/ActixService.antt =====
-- examples/actix_service.rs: a service that uses the crate, with its user, its scopes and its handler.
-- The extensions of a request are the user that is in them, if there is one.
pub mod Wiring
pub mod Startup
pub mod Users
pub mod Visitors
pub mod Vouched
pub mod Sessions
pub mod Development
use authn_kit.Prelude.{
  ℕ, Bool, true, false, ◌||◌, ◌++◌, ◌⊎◌, inl, inr, Option, none, some, List, if◌then◌else◌,
}
use authn_kit.Text.{Text, str, starts_with, contains}
use authn_kit.Effect.{M}
use authn_kit.Claims.{IdentityClaims, ClaimSource, client_credentials, best_effort_username}
use authn_kit.Request.{AuthRequest, header}
use authn_kit.Scope.{AuthScope, ScopeResolver}
use authn_kit.Gateway.{AuthGateway}
use authn_kit.Adapters.Actix.{ServiceRequest}
use authn_kit.Adapters.Middleware.{ActixAuthn, Reply, new, call}

pub record User : Type 0 where
  pub email : Text
  pub username : Text

-- `claims.source == ClaimSource::ClientCredentials`
abbrev pub is_machine : ClaimSource → Bool
is_machine client_credentials = true
is_machine _ = false

-- the user of a machine grant
unfoldable pub machine : Text → User
machine client = record {
  email = client ++ str "@service.local";
  username = str "service-account-" ++ client;
}

unfoldable pub machine_user : Option Text → Text ⊎ User
unfolding machine
machine_user none = inl (str "client_id claim not found")
machine_user (some client) = inr (machine client)

abbrev pub named : Text → Option Text → Text ⊎ User
named email none = inl (str "no identity")
named email (some username) = inr (record { email = email; username = username })

module _ {Value : Type 0} where
  unfoldable pub human_user : IdentityClaims Value → Text ⊎ User
  human_user claims = elim claims.email [
    | none ↦ inl (str "email claim not found")
    | some email ↦ named email (best_effort_username claims)
  ]

  unfoldable pub try_from : IdentityClaims Value → Text ⊎ User
  unfolding machine_user human_user
  try_from claims =
      if is_machine claims.source then machine_user claims.client_id else human_user claims

pub data Scope : Type 0 where
  public global : Scope
  org : Text → Scope

unfoldable pub display : Scope → Text
display public = str "none"
display global = str "user"
display (org id) = str "org_" ++ id

unfoldable pub is_public : Scope → Bool
is_public public = true
is_public _ = false

unfoldable pub cache_discriminator : Scope → Option Text
cache_discriminator (org id) = some id
cache_discriminator _ = none

-- `session_cookie_name` is the trait's default.
instance abbrev pub service_scope : AuthScope Scope
service_scope = record {
  is_public = is_public;
  cache_discriminator = cache_discriminator;
  session_cookie_name = display;
  display = display;
}

abbrev pub scope_of_header : Option Text → Scope
scope_of_header none = global
scope_of_header (some id) = org id

unfoldable pub resolve : AuthRequest → Scope
resolve request =
    if starts_with request.path (str "/health")
    then public
    else if contains request.path (str "/organisations")
        || contains request.path (str "/authz/admin")
    then global
    else scope_of_header (header request (str "x-org-id"))

abbrev pub scopes : ScopeResolver Scope
scopes = record { resolve = resolve }

-- `format!("{} <{}>", user.username, user.email)`
unfoldable pub greeting : User → Text
greeting user = user.username ++ str " <" ++ user.email ++ str ">"

-- The body of the response, whose status is 200.
unfoldable pub whoami : Option User → Text
unfolding greeting
whoami none = str "anonymous"
whoami (some user) = greeting user

-- What the application answers: the handler's page, or what actix answers where no route matches.
pub data Answer (B : Type 0) : Type 0 where
  page : Text → Answer B
  other : B → Answer B

-- `is_get` is the test of actix that a request is a GET of a path, and `unrouted` its answer to a
-- request that no route matches.
module _ {B W : Type 0} (is_get : Text → ServiceRequest → Bool)
    (unrouted : ServiceRequest → B) where
  unfoldable pub routed : ServiceRequest → Option User → W → Answer B × W
  unfolding whoami
  routed request extensions w =
      if is_get (str "/health") request || is_get (str "/config") request
      then (page (whoami extensions), w)
      else (other (unrouted request), w)

  -- the application behind the middleware; a request comes without a user in its extensions
  unfoldable pub app :
      (Text → Option (List ℕ))
      → (List ℕ → Option Text)
      → AuthGateway User Scope W
      → ServiceRequest
      → M W (Reply (Answer B))
  unfolding routed call new
  app decode to_str gateway request =
      call decode to_str (λ user _. some user) (new gateway) routed request none
