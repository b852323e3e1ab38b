-- ===== src/Builder/Laws.antt =====
-- src/builder.rs: what a sequence of registrations builds.
use authn_kit.Prelude.{
  ◌≡◌, ◌≢◌, ◌↔◌, refl, Bool, true, false, List, [], ◌∷◌, ◌++◌, arith, if◌then◌else◌, append_assoc,
  append-nil, ◌∙◌, sym,
}
use authn_kit.Effect.{ok}
use authn_kit.Scope.{ScopeResolver}
use authn_kit.Authenticator.{Authenticator, optional, with, chain_is_empty}
use authn_kit.Gateway
use authn_kit.Builder.{AuthnBuilder, new_builder, add, with_if, build}

module _ {U S W : Type 0} where
  -- a sequence of `with_if` calls, in order
  abbrev pub register : List (Bool × Authenticator U S W) → AuthnBuilder U S W → AuthnBuilder U S W
  register [] b = b
  register ((condition, a) ∷ calls) b = register calls (with_if condition a b)

  -- the authenticators of the calls whose condition holds
  abbrev pub enabled : List (Bool × Authenticator U S W) → List (Authenticator U S W)
  enabled [] = []
  enabled ((condition, a) ∷ calls) = if condition then a ∷ enabled calls else enabled calls

  register_lem :
      (calls : List (Bool × Authenticator U S W)) (b : AuthnBuilder U S W)
      → ((register calls b).scopes ≡ b.scopes)
        × ((register calls b).chain.policy ≡ b.chain.policy)
        × ((register calls b).chain.authenticators ≡ b.chain.authenticators ++ enabled calls)
  unfolding with_if add with
  register_lem [] b = (refl, refl, sym (append-nil _))
  register_lem ((true, a) ∷ calls) b =
      let (scopes, policy, listed) = register_lem calls (add a b) in
      (scopes, policy, listed ∙ append_assoc b.chain.authenticators (a ∷ []) (enabled calls))
  register_lem ((false, a) ∷ calls) b = register_lem calls b

  -- `build` refuses exactly the registrations that enable nothing. Otherwise the gateway has the
  -- resolver, the default policy, and the enabled authenticators in the order of registration.
  pub build-register :
      (scopes : ScopeResolver S) (calls : List (Bool × Authenticator U S W))
      → (g : Gateway.AuthGateway U S W)
      → (build (register calls (new_builder scopes)) ≡ ok g) ↔ (
          (enabled calls ≢ [])
          × (g ≡ Gateway.new scopes (record { authenticators = enabled calls; policy = optional })))
  unfolding build new_builder chain_is_empty Gateway.new
  build-register scopes calls g =
      let (s, p, l) = register_lem calls (new_builder scopes) in ground (arith, s, p, l)
