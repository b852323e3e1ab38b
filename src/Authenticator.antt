-- ===== src/Authenticator.antt =====
-- src/authenticator.rs: the authenticator trait, and the chain that consults several. `U` and `S`
-- are the user and the scope of the `AuthProfile`, and `W` is the world that a call may change.
pub mod Decides
use authn_kit.Prelude.{Bool, true, false, ◌&&◌, List, [], ◌∷◌, ◌++◌, map, is_empty, if◌then◌else◌}
use authn_kit.Text.{Text}
use authn_kit.Error.{AuthError}
use authn_kit.Effect.{Result, ok, err, panic, M, pure, ◌>>=◌}
use authn_kit.Request.{AuthRequest}
use authn_kit.Credential.{Credential, is_none}
use authn_kit.Scope.{AuthScope}
use authn_kit.Outcome.{Verdict, Outcome, anonymous}

pub record AuthContext (S : Type 0) : Type 0 where
  pub request : AuthRequest
  pub credential : Credential
  pub scope : S

pub record Authenticator (U S W : Type 0) : Type 0 where
  pub name : Text
  pub authenticate : AuthContext S → M W (Verdict U)

pub data PublicScopePolicy : Type 0 where
  optional always_anonymous : PublicScopePolicy

pub record AuthChain (U S W : Type 0) : Type 0 where
  pub authenticators : List (Authenticator U S W)
  pub policy : PublicScopePolicy

-- the outcome where nothing claimed the request
abbrev pub unclaimed : {U : Type 0} → Bool → Outcome U
unclaimed is_public = if is_public then anonymous else Outcome.not_applicable

-- Whether a public scope is answered without consulting any authenticator.
unfoldable pub short_circuits : PublicScopePolicy → Credential → Bool
unfolding is_none
short_circuits always_anonymous credential = true
short_circuits optional credential = is_none credential

module _ {U S W : Type 0} where
  abbrev pub new : AuthChain U S W
  new = record { authenticators = []; policy = optional }

  -- `with` and `with_arc`
  unfoldable pub with : Authenticator U S W → AuthChain U S W → AuthChain U S W
  with a c = record c { authenticators = c.authenticators ++ a ∷ [] }

  unfoldable pub public_scope_policy : PublicScopePolicy → AuthChain U S W → AuthChain U S W
  public_scope_policy policy c = record c { policy = policy }

  unfoldable pub names : AuthChain U S W → List Text
  names c = map (λ a. a.name) c.authenticators

  unfoldable pub chain_is_empty : AuthChain U S W → Bool
  chain_is_empty c = is_empty c.authenticators

  -- the loop of `authenticate`, and what follows it
  unfoldable pub consult : Bool → AuthContext S → List (Authenticator U S W) → M W (Outcome U)
  consult is_public ctx [] = pure (unclaimed is_public)
  consult is_public ctx (a ∷ rest) = do
    verdict ← a.authenticate ctx
    elim verdict [
      | Verdict.not_applicable ↦ consult is_public ctx rest
      | Verdict.authenticated user ↦ pure (Outcome.authenticated user)
    ]

  module _ ⦃s : AuthScope S⦄ where
    unfoldable pub authenticate : AuthChain U S W → AuthRequest → Credential → S → M W (Outcome U)
    unfolding consult short_circuits
    authenticate c request credential scope =
        let is_public = s.is_public scope in
        if is_public && short_circuits c.policy credential
        then pure anonymous
        else consult is_public
            (record { request = request; credential = credential; scope = scope }) c.authenticators
