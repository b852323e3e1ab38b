-- ===== src/Gateway.antt =====
-- src/gateway.rs: the framework-agnostic core of a middleware. `decode` is the `base64` engine.
pub mod Laws
pub mod Sources
use authn_kit.Prelude.{Bool, Option, none, some, List, ◌++◌, get_or, ℕ}
use authn_kit.Text.{Text, str}
use authn_kit.Error.{AuthError, unauthenticated}
use authn_kit.Effect.{Result, M, pure, fail, ◌>>=◌}
use authn_kit.Request.{AuthRequest}
use authn_kit.Credential.{Credential, scheme, from_request}
use authn_kit.Scope.{AuthScope, ScopeResolver}
use authn_kit.Outcome.{Outcome, anonymous}
use authn_kit.Authenticator.{AuthChain, names, authenticate}

pub record AuthGateway (U S W : Type 0) : Type 0 where
  pub scopes : ScopeResolver S
  pub chain : AuthChain U S W

module _ {U S W : Type 0} where
  unfoldable pub new : ScopeResolver S → AuthChain U S W → AuthGateway U S W
  new scopes chain = record { scopes = scopes; chain = chain }

  unfoldable pub authenticator_names : AuthGateway U S W → List Text
  authenticator_names g = names g.chain

  unfoldable pub scope_of : AuthGateway U S W → AuthRequest → S
  scope_of g request = g.scopes.resolve request

-- the challenge for a request that nothing claimed
unfoldable pub challenge : {S : Type 0} ⦃s : AuthScope S⦄ → Credential → S → AuthError
challenge ⦃s⦄ credential scope = unauthenticated (
    str "no authenticator claimed the request (scheme: "
    ++ get_or (scheme credential) (str "none")
    ++ str ", scope: "
    ++ s.display scope
    ++ str ")")

module _ {U S W : Type 0} ⦃s : AuthScope S⦄ where
  -- the match of `authenticate_with`
  unfoldable pub answer : Credential → S → Outcome U → M W (Option U)
  answer credential scope (Outcome.authenticated user) = pure (some user)
  answer credential scope anonymous = pure none
  answer credential scope Outcome.not_applicable = fail (challenge credential scope)

  unfoldable pub authenticate_with : AuthGateway U S W → AuthRequest → Credential → M W (Option U)
  unfolding answer
  authenticate_with g request credential =
      let scope = g.scopes.resolve request in
      do outcome ← authenticate g.chain request credential scope; answer credential scope outcome

  unfoldable pub gateway_authenticate :
      (Text → Option (List ℕ)) → AuthGateway U S W → AuthRequest → M W (Option U)
  unfolding authenticate_with
  gateway_authenticate decode g request = authenticate_with g request (from_request decode request)
