-- ===== src/Mechanisms/Basic/Grants.antt =====
-- src/mechanisms/basic.rs: what stands behind a user that a grant authenticates.
use authn_kit.Prelude.{ℕ, ◌<◌, ◌≡◌, ◌⊎◌, inl, inr, Option, some, List, ap, ◌∙◌}
use authn_kit.Text.{Text, str}
use authn_kit.Effect.{ok, Clock, ◌>>=◌}
use authn_kit.Effect.Laws.{bind-ok, ok_inj}
use authn_kit.Claims.{IdentityClaims}
use authn_kit.Map.{lookup}
use authn_kit.Cache.{CacheKey, Entry, key, key_Eq}
use authn_kit.Cache.Shared.{get_shared, insert_shared}
use authn_kit.Cache.Shared.Laws.{cached_or-ok}
use authn_kit.Oidc.Provider.{Library, skip, verify_id_token, machine_client, build_client}
use authn_kit.Oidc.Tokens.{TokenEndpoint, add_scopes, started, exchange, carried}
use authn_kit.Oidc.Tokens.Laws.{started-ok, exchange-ok, carried-ok}
use authn_kit.Mechanisms.Identity.{user_of, user_of-ok}
use authn_kit.Mechanisms.Basic.{
  BasicAuthenticator, machine_claims, remember, verify_response, password_exchange, password_grant,
  client_credentials_exchange, client_credentials_grant,
}

module _ {Metadata Client IdToken Value Request Response U W : Type 0}
    (library : Library Metadata Client IdToken Value W)
    (endpoint : TokenEndpoint Client Request Response W) (hash : Text → List ℕ) (clock : Clock W)
    (try_from : IdentityClaims Value → Text ⊎ U) (a : BasicAuthenticator Metadata Client U W) where
  -- An entry under the key that has not expired when the clock is read.
  abbrev pub Cached : CacheKey → U → W → Type 0
  Cached k u w =
      (e : Entry U) × (lookup k (a.cache.load w).entries ≡ some e)
      × (e.value ≡ u)
      × ((clock.instant_now w).0 < e.expires_at)

  -- In the world `w` the endpoint answers the exchange of the password, which the client of the
  -- snapshot makes with all the scopes of the configuration; the answer carries an ID token, which is
  -- verified in the world that the answer leaves, and its claims convert to the user.
  pub record PasswordAccepted (id secret : Text) (w : W) (u : U) : Type 0 where
    pub request : Request
    pub response : Response
    pub token : Text
    pub claims : IdentityClaims Value
    pub made :
        endpoint.exchange_password (a.provider.state.load w).state.client id secret ≡ inr request
    pub answer :
        (endpoint.request_async (add_scopes endpoint a.provider.config.scopes request) w).0
        ≡ inr response
    pub carries : endpoint.id_token response ≡ some token
    pub verifies :
        (verify_id_token library clock a.provider token skip
          (endpoint.request_async (add_scopes endpoint a.provider.config.scopes request) w).1).0
        ≡ ok claims
    pub converts : try_from claims ≡ inr u

  -- In the world `w` the endpoint answers a client that is built from the metadata of the snapshot
  -- with the very credentials, and the user is made from the identifier of that client.
  pub record MachineAccepted (id secret : Text) (w : W) (u : U) : Type 0 where
    pub request : Request
    pub response : Response
    pub made :
        endpoint.exchange_client_credentials (
          build_client library clock
            (a.provider.state.load w).state.metadata
            id
            (some secret)
            a.provider.config.redirect_url)
        ≡ inr request
    pub answer : (endpoint.request_async request w).0 ≡ inr response
    pub converts : try_from (machine_claims id) ≡ inr u

  remember-ok :
      (label : Text) (k : CacheKey) (expires_in : Option ℕ) (claims : IdentityClaims Value) (w : W)
      (u : U)
      → (remember library endpoint hash clock try_from a label k expires_in claims w).0 ≡ ok u
      → try_from claims ≡ inr u
  unfolding remember
  remember-ok label k expires_in claims w u h =
      let (user, converts, rest) = bind-ok (user_of label (try_from claims)) _ w u h in
      let (_, _, done) = bind-ok (insert_shared clock a.cache k user expires_in) _ _ u rest in
      user_of-ok label (try_from claims) w user converts ∙ ap inr (ok_inj done)

  verify_response-ok :
      (k : CacheKey) (expires_in : Option ℕ) (token : Text) (w : W) (u : U)
      → (verify_response library endpoint hash clock try_from a k expires_in token w).0 ≡ ok u
      → (claims : IdentityClaims Value) × ((verify_id_token library clock a.provider token skip w).0
          ≡ ok claims)
        × (try_from claims ≡ inr u)
  unfolding verify_response
  verify_response-ok k expires_in token w u h =
      let (claims, verifies, rest) =
        bind-ok (verify_id_token library clock a.provider token skip) _ w u h in
      (claims, verifies, remember-ok _ k expires_in claims _ u rest)

  -- what follows the answer of the endpoint
  after_answer :
      (k : CacheKey) (id secret : Text) (w : W) (u : U) (request : Request) (response : Response)
      → endpoint.exchange_password (a.provider.state.load w).state.client id secret ≡ inr request
      → (let asked = add_scopes endpoint a.provider.config.scopes request in
          ((endpoint.request_async asked w).0 ≡ inr response)
          × (((do
            token ← carried endpoint (endpoint.id_token response)
            verify_response library endpoint hash clock try_from a k
                (endpoint.expires_in response)
                token)
                (endpoint.request_async asked w).1).0
              ≡ ok u))
      → PasswordAccepted id secret w u
  after_answer k id secret w u request response made (answer, h) =
      let v = (endpoint.request_async (add_scopes endpoint a.provider.config.scopes request) w).1 in
      let (token, held, rest) = bind-ok (carried endpoint (endpoint.id_token response)) _ v u h in
      let (carries, rests) = carried-ok endpoint (endpoint.id_token response) token v held in
      let (claims, verifies, converts) =
        verify_response-ok k (endpoint.expires_in response) token v u (rw rests at rest) in
      record {
        request = request;
        response = response;
        token = token;
        claims = claims;
        made = made;
        answer = answer;
        carries = carries;
        verifies = verifies;
        converts = converts;
      }

  password_exchange-ok :
      (k : CacheKey) (id secret : Text) (w : W) (u : U)
      → (password_exchange library endpoint hash clock try_from a k id secret w).0 ≡ ok u
      → PasswordAccepted id secret w u
  unfolding password_exchange
  password_exchange-ok k id secret w u h =
      let start = endpoint.exchange_password (a.provider.state.load w).state.client id secret in
      let (request, begun, h₁) = bind-ok (started endpoint start) _ w u h in
      let (made, stays) = started-ok endpoint start request w begun in
      let asked = add_scopes endpoint a.provider.config.scopes request in
      let (response, replied, h₂) = bind-ok (exchange endpoint asked) _ w u (rw stays at h₁) in
      let (answer, moves) = exchange-ok endpoint asked response w replied in
      after_answer k id secret w u request response made (answer, rw moves at h₂)

  client_credentials_exchange-ok :
      (k : CacheKey) (id secret : Text) (w : W) (u : U)
      → (client_credentials_exchange library endpoint hash clock try_from a k id secret w).0 ≡ ok u
      → MachineAccepted id secret w u
  unfolding client_credentials_exchange machine_client
  client_credentials_exchange-ok k id secret w u h =
      let start = endpoint.exchange_client_credentials (
        build_client library clock (a.provider.state.load w).state.metadata id (some secret)
          a.provider.config.redirect_url) in
      let (request, begun, h₁) = bind-ok (started endpoint start) _ w u h in
      let (made, stays) = started-ok endpoint start request w begun in
      let (response, replied, h₂) = bind-ok (exchange endpoint request) _ w u (rw stays at h₁) in
      record {
        request = request;
        response = response;
        made = made;
        answer = (exchange-ok endpoint request response w replied).0;
        converts = remember-ok _ k (endpoint.expires_in response) (machine_claims id) _ u h₂;
      }

  -- the key of the cache for a pair in a scope, under the name of a grant
  abbrev pub pair_key : Text → Option Text → Text → Text → CacheKey
  pair_key grant scope id secret = record {
    scope = scope;
    mechanism = grant;
    principal = id;
    digest = hash secret;
  }

  -- What stands behind a user that the password grant gives: an entry of the cache under the key of
  -- this grant and pair, or the endpoint's answer.
  abbrev pub ByPassword : Option Text → Text → Text → W → U → Type 0
  ByPassword scope id secret w u =
      let k = pair_key (str "basic-password") scope id secret in
      Cached k u w ⊎ PasswordAccepted id secret (get_shared clock a.cache k w).1 u

  abbrev pub ByMachine : Option Text → Text → Text → W → U → Type 0
  ByMachine scope id secret w u =
      let k = pair_key (str "basic-client-credentials") scope id secret in
      Cached k u w ⊎ MachineAccepted id secret (get_shared clock a.cache k w).1 u

  pub password_grant-ok :
      (scope : Option Text) (id secret : Text) (w : W) (u : U)
      → (password_grant library endpoint hash clock try_from a scope id secret w).0 ≡ ok u
      → ByPassword scope id secret w u
  unfolding password_grant key
  password_grant-ok scope id secret w u h =
      let k = pair_key (str "basic-password") scope id secret in
      elim (cached_or-ok clock a.cache k _ w u h) [
        | inl hit ↦ inl hit
        | inr miss ↦ inr (password_exchange-ok k id secret _ u miss)
      ]

  pub client_credentials_grant-ok :
      (scope : Option Text) (id secret : Text) (w : W) (u : U)
      → (client_credentials_grant library endpoint hash clock try_from a scope id secret w).0 ≡ ok u
      → ByMachine scope id secret w u
  unfolding client_credentials_grant key
  client_credentials_grant-ok scope id secret w u h =
      let k = pair_key (str "basic-client-credentials") scope id secret in
      elim (cached_or-ok clock a.cache k _ w u h) [
        | inl hit ↦ inl hit
        | inr miss ↦ inr (client_credentials_exchange-ok k id secret _ u miss)
      ]
