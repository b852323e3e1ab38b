-- ===== src/ActixService/Vouched.antt =====
-- examples/actix_service.rs: who vouches for a user of a service that has a provider.
use authn_kit.Prelude.{
  ℕ, ◌≡◌, ◌⊎◌, inl, inr, Bool, true, Option, some, List, [], ◌∷◌, All, subst, sym, ap,
}
use authn_kit.Text.{Text, str, starts_with}
use authn_kit.Effect.{ok}
use authn_kit.Request.{AuthRequest}
use authn_kit.Credential.{from_request}
use authn_kit.Outcome.{Verdict}
use authn_kit.Authenticator.{AuthContext}
use authn_kit.Gateway.{AuthGateway, gateway_authenticate}
use authn_kit.Gateway.Laws.{context}
use authn_kit.Gateway.Sources.{authenticate_with-All}
use authn_kit.Oidc.Provider.{OidcProvider}
use authn_kit.Oidc.Login
use authn_kit.Mechanisms.ApiToken.{ApiTokenAuthenticator, api_token}
use authn_kit.Mechanisms.ApiToken.Static.{IsConstantTimeEq}
use authn_kit.Mechanisms.ApiToken.Sources.{HasKey, authenticate-HasKey}
use authn_kit.Mechanisms.Bearer.{bearer_authenticator}
use authn_kit.Mechanisms.Bearer.Accepted.{IsBearer, authenticate-IsBearer}
use authn_kit.Mechanisms.Session.{session_authenticator, with_login_redirect}
use authn_kit.Mechanisms.Session
use authn_kit.Mechanisms.Session.Challenges.{HasSession, authenticate-session}
use authn_kit.Gateway
use authn_kit.Adapters.Actix.{ServiceRequest, of_request}
use authn_kit.Adapters.Middleware.{handled}
use authn_kit.ActixService.Visitors.{app-Greets}
use authn_kit.ActixService.{User, Scope, service_scope, try_from, scopes, greeting, page, app}
use authn_kit.ActixService.Wiring.{Surroundings, gateway}
use authn_kit.ActixService.Startup.{
  issuer, keys_of, bearer_of, session_of, IsProtected, unprotected, protected, gateway-IsStarted,
}

module _ {Metadata Client IdToken Value Challenge Request Response W : Type 0}
    (s : Surroundings Metadata Client IdToken Value Challenge Request Response W)
    (law : IsConstantTimeEq s.ct_eq) (keys : ApiTokenAuthenticator User Value W)
    (provider : OidcProvider Metadata Client W) (ctx : AuthContext Scope) where
  -- What vouches for a user, in some world: a key, a bearer token, or a session.
  pub data IsVouched (u : User) : Type 0 where
    by_key : (v : W) → HasKey s.ct_eq s.hash s.clock try_from keys law ctx v u → IsVouched u
    by_bearer : (v : W) → IsBearer s.library s.clock try_from provider ctx v u → IsVouched u
    by_session :
        (v : W)
        → HasSession s.library s.clock s.debug s.encoding s.endpoint try_from
            (with_login_redirect (Login.new provider) (Session.new provider))
            ctx
            v
            u
        → IsVouched u

  each :
      All
        (λ a.
          (v : W) (u : User)
          → (a.authenticate ctx v).0 ≡ ok (Verdict.authenticated u)
          → IsVouched u)
        (keys_of s keys ∷ bearer_of s provider ∷ session_of s provider ∷ [])
  unfolding api_token bearer_authenticator session_authenticator
  each = (
    λ v u h. by_key v (authenticate-HasKey s.ct_eq s.hash s.clock try_from keys law ctx v u h),
    (
      λ v u h.
          by_bearer v ((authenticate-IsBearer s.library s.clock try_from provider ctx v u).0 h),
      (
        λ v u h. by_session v (
            (authenticate-session s.library s.clock s.debug s.encoding s.endpoint try_from
                (with_login_redirect (Login.new provider) (Session.new provider)) ctx v u).0
              h),
        tt,
      ),
    ),
  )

module _ {Metadata Client IdToken Value Challenge Request Response W : Type 0}
    (s : Surroundings Metadata Client IdToken Value Challenge Request Response W)
    (law : IsConstantTimeEq s.ct_eq) (decode : Text → Option (List ℕ)) where
  -- The user is vouched for, by the keys and the provider with which the gateway was made.
  abbrev pub VouchedBy : (w : W) (g : AuthGateway User Scope W) → AuthRequest → User → Type 0
  VouchedBy w g request user =
      (p : IsProtected s w g) × IsVouched s law p.keys p.provider
        (context g request (from_request decode request)) user

  authenticate-VouchedBy :
      (w : W) (g : AuthGateway User Scope W) (p : IsProtected s w g) (request : AuthRequest) (v : W)
      (user : User)
      → (gateway_authenticate decode g request v).0 ≡ ok (some user)
      → VouchedBy w g request user
  unfolding gateway_authenticate Gateway.new
  authenticate-VouchedBy w g p request v user h =
      let ctx = context g request (from_request decode request) in
      let listed = sym (ap (λ x. x.chain.authenticators) p.chained) in
      let all =
        subst
          (All (λ a.
            (v : W) (u : User)
            → (a.authenticate ctx v).0 ≡ ok (Verdict.authenticated u)
            → IsVouched s law p.keys p.provider ctx u))
          listed (each s law p.keys p.provider ctx) in
      (p, authenticate_with-All g request (from_request decode request) _ user v all h)

  resolver : (w : W) (g : AuthGateway User Scope W) → IsProtected s w g → g.scopes ≡ scopes
  unfolding Gateway.new
  resolver w g p = ap (λ x. x.scopes) p.chained

  IsProtected-issuer :
      (w : W) (g : AuthGateway User Scope W) (i : Text)
      → issuer s ≡ some i
      → (gateway s w).0 ≡ ok g
      → IsProtected s w g
  IsProtected-issuer w g i set started = elim (gateway-IsStarted s w g started) [
    | unprotected n _ ↦ absurd (cc (n, set))
    | protected _ p ↦ p
  ]

  module _ {B : Type 0} (is_get : Text → ServiceRequest → Bool) (unrouted : ServiceRequest → B)
      (to_str : List ℕ → Option Text) where
    -- A service that started with an issuer, in the world `w`, answers a request later with a page of
    -- its handler only if the page greets a user for whom a key, a bearer token or a session of that
    -- request vouches, or the path starts with `/health` and the page greets an anonymous visitor.
    pub app-VouchedBy :
        (w : W) (g : AuthGateway User Scope W) (i : Text) (request : ServiceRequest) (v v' : W)
        (text : Text)
        → issuer s ≡ some i
        → (gateway s w).0 ≡ ok g
        → app is_get unrouted decode to_str g request v ≡ (ok (handled (page text)), v')
        → ((user : User) × VouchedBy w g (of_request to_str request) user × (text ≡ greeting user))
          ⊎ ((starts_with request.path (str "/health") ≡ true) × (text ≡ str "anonymous"))
    app-VouchedBy w g i request v v' text set started served =
        let p = IsProtected-issuer w g i set started in
        elim (app-Greets is_get unrouted decode to_str g request v v' text (resolver w g p)
          served) [
            | inl (user, authenticated, greets, _) ↦ inl (
              user,
              authenticate-VouchedBy w g p (of_request to_str request) v user authenticated,
              greets,
            )
            | inr visitor ↦ inr visitor
          ]
