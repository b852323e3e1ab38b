-- ===== src/Builder.antt =====
-- src/builder.rs: assembling a gateway.
pub mod Laws
use authn_kit.Prelude.{Bool, if◌then◌else◌}
use authn_kit.Text.{str}
use authn_kit.Error.{internal}
use authn_kit.Effect.{Result, ok, err}
use authn_kit.Scope.{ScopeResolver}
use authn_kit.Authenticator.{
  Authenticator, AuthChain, PublicScopePolicy, new, with, public_scope_policy, chain_is_empty,
}
use authn_kit.Gateway.{AuthGateway}
use authn_kit.Gateway

pub record AuthnBuilder (U S W : Type 0) : Type 0 where
  pub scopes : ScopeResolver S
  pub chain : AuthChain U S W

module _ {U S W : Type 0} where
  unfoldable pub new_builder : ScopeResolver S → AuthnBuilder U S W
  new_builder scopes = record { scopes = scopes; chain = new }

  unfoldable pub add : Authenticator U S W → AuthnBuilder U S W → AuthnBuilder U S W
  add a b = record b { chain = with a b.chain }

  unfoldable pub with_if : Bool → Authenticator U S W → AuthnBuilder U S W → AuthnBuilder U S W
  with_if condition a b = if condition then add a b else b

  unfoldable pub set_public_scope_policy :
      PublicScopePolicy → AuthnBuilder U S W → AuthnBuilder U S W
  set_public_scope_policy policy b = record b { chain = public_scope_policy policy b.chain }

  unfoldable pub build : AuthnBuilder U S W → Result (AuthGateway U S W)
  build b =
      if chain_is_empty b.chain
      then err (
          internal (
            str
              "no authenticators registered: the gateway would refuse every request on a protected scope"))
      else ok (Gateway.new b.scopes b.chain)
