-- ===== src/Mechanisms/Basic.antt =====
-- src/mechanisms/basic.rs: `Authorization: Basic` exchanged with the provider's token endpoint. The
-- place of the authenticator's cache is a cell of the world.
pub mod Grants
pub mod Decisions
use authn_kit.Prelude.{
  ℕ, Bool, true, false, ◌&&◌, ◌++◌, ◌⊎◌, Option, none, some, List, if◌then◌else◌,
}
use authn_kit.Text.{Text, str, text_eq}
use authn_kit.Error.{malformed_credential, unsupported}
use authn_kit.Effect.{M, pure, fail, Cell, Clock, ◌>>=◌, ◌>>◌}
use authn_kit.Claims.{
  IdentityClaims, client_credentials, with_subject, with_client_id, with_preferred_username,
}
use authn_kit.Claims
use authn_kit.Request.{header}
use authn_kit.Credential.{Credential, basic}
use authn_kit.Scope.{AuthScope}
use authn_kit.Outcome.{Verdict}
use authn_kit.Cache.{CacheConfig, CredentialCache, CacheKey, key}
use authn_kit.Cache
use authn_kit.Cache.Shared.{cached_or, insert_shared}
use authn_kit.Authenticator.{Authenticator, AuthContext}
use authn_kit.Oidc.Provider.{Library, OidcProvider, skip, snapshot, machine_client, verify_id_token}
use authn_kit.Oidc.Tokens.{TokenEndpoint, add_scopes, started, exchange, carried}
use authn_kit.Mechanisms.Identity.{user_of}

abbrev pub grant_type_header : Text
grant_type_header = str "x-grant-type"

pub record BasicAuthenticator (Metadata Client U W : Type 0) : Type 0 where
  pub provider : OidcProvider Metadata Client W
  pub cache : Cell W (CredentialCache U)
  pub allow_password_grant : Bool

module _ {Metadata Client U W : Type 0} where
  -- `cell` is the place of the new authenticator's cache, which starts as `CredentialCache::default()`.
  unfoldable pub new :
      OidcProvider Metadata Client W
      → Cell W (CredentialCache U)
      → BasicAuthenticator Metadata Client U W
  new provider cell = record { provider = provider; cache = cell; allow_password_grant = false }

  unfoldable pub with_password_grant :
      Bool → BasicAuthenticator Metadata Client U W → BasicAuthenticator Metadata Client U W
  with_password_grant allow a = record a { allow_password_grant = allow }

  -- The cache is replaced by a new one.
  unfoldable pub with_cache_config : CacheConfig → BasicAuthenticator Metadata Client U W → W → W
  with_cache_config config a = a.cache.store (Cache.new config)

-- the claims of a machine grant
unfoldable pub machine_claims : {Value : Type 0} → Text → IdentityClaims Value
machine_claims id =
    with_preferred_username id (with_client_id id (with_subject id (Claims.new client_credentials)))

module _ {Metadata Client IdToken Value Request Response U W : Type 0}
    (library : Library Metadata Client IdToken Value W)
    (endpoint : TokenEndpoint Client Request Response W) (hash : Text → List ℕ) (clock : Clock W)
    (try_from : IdentityClaims Value → Text ⊎ U) (a : BasicAuthenticator Metadata Client U W) where
  abbrev pub password_key : Option Text → Text → Text → CacheKey
  password_key scope id secret = key hash scope (str "basic-password") id secret

  abbrev pub client_credentials_key : Option Text → Text → Text → CacheKey
  client_credentials_key scope id secret = key hash scope (str "basic-client-credentials") id secret

  -- what both grants do last: the user is converted, cached and returned
  unfoldable pub remember : Text → CacheKey → Option ℕ → IdentityClaims Value → M W U
  remember label cache_key expires_in claims = do
    user ← user_of label (try_from claims)
    insert_shared clock a.cache cache_key user expires_in
    pure user

  -- what follows the response to a password: its ID token
  unfoldable pub verify_response : CacheKey → Option ℕ → Text → M W U
  unfolding remember
  verify_response cache_key expires_in token = do
    claims ← verify_id_token library clock a.provider token skip
    remember (str "password-grant identity conversion") cache_key expires_in claims

  -- what follows a miss of the cache
  unfoldable pub password_exchange : CacheKey → Text → Text → M W U
  unfolding add_scopes verify_response
  password_exchange cache_key id secret = do
    current ← snapshot library clock a.provider
    request ← started endpoint (endpoint.exchange_password current.state.client id secret)
    response ← exchange endpoint (add_scopes endpoint a.provider.config.scopes request)
    token ← carried endpoint (endpoint.id_token response)
    verify_response cache_key (endpoint.expires_in response) token

  unfoldable pub password_grant : Option Text → Text → Text → M W U
  unfolding password_exchange
  password_grant scope id secret =
      let cache_key = password_key scope id secret in
      cached_or clock a.cache cache_key (password_exchange cache_key id secret)

  -- what follows a miss of the cache
  unfoldable pub client_credentials_exchange : CacheKey → Text → Text → M W U
  unfolding machine_claims remember
  client_credentials_exchange cache_key id secret = do
    client ← machine_client library clock a.provider id secret
    request ← started endpoint (endpoint.exchange_client_credentials client)
    response ← exchange endpoint request
    remember (str "client-credentials identity conversion") cache_key (endpoint.expires_in response)
        (machine_claims id)

  unfoldable pub client_credentials_grant : Option Text → Text → Text → M W U
  unfolding client_credentials_exchange
  client_credentials_grant scope id secret =
      let cache_key = client_credentials_key scope id secret in
      cached_or clock a.cache cache_key (client_credentials_exchange cache_key id secret)

  -- the match on the header
  unfoldable pub grant : Option Text → Option Text → Text → Text → M W U
  unfolding password_grant client_credentials_grant
  grant none scope id secret = client_credentials_grant scope id secret
  grant (some kind) scope id secret =
      if text_eq kind (str "client_credentials")
      then client_credentials_grant scope id secret
      else if text_eq kind (str "password") && a.allow_password_grant
      then password_grant scope id secret
      else if text_eq kind (str "password")
      then fail (unsupported (str "the resource-owner password grant is not enabled"))
      else fail (malformed_credential (str "unsupported " ++ grant_type_header ++ str ": " ++ kind))

  module _ {S : Type 0} ⦃s : AuthScope S⦄ where
    unfoldable pub authenticate : AuthContext S → M W (Verdict U)
    unfolding grant
    authenticate ctx = elim ctx.credential [
      | basic id secret ↦ do
        user ←
            grant (header ctx.request grant_type_header) (s.cache_discriminator ctx.scope) id secret
        pure (Verdict.authenticated user)
      | _ ↦ pure Verdict.not_applicable
    ]

    unfoldable pub basic_authenticator : Authenticator U S W
    unfolding authenticate
    basic_authenticator = record { name = str "basic"; authenticate = authenticate }
