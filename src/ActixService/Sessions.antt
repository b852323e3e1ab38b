-- ===== src/ActixService/Sessions.antt =====
-- examples/actix_service.rs: the cookie that a login sets, and the one that a session is read from.
use authn_kit.Prelude.{◌≡◌, ◌≢◌, some, [], ◌∷◌, ap, sym, ◌∙◌}
use authn_kit.Text.{Text, str, text_eq}
use authn_kit.Map.{lookup, text_Eq}
use authn_kit.Effect.{ok}
use authn_kit.Request.{cookie}
use authn_kit.Outcome.{Verdict}
use authn_kit.Authenticator.{AuthContext}
use authn_kit.Oidc.Provider.{OidcProvider}
use authn_kit.Oidc.Session.{session}
use authn_kit.Oidc.Login
use authn_kit.Mechanisms.Session.{session_authenticator, with_login_redirect}
use authn_kit.Mechanisms.Session
use authn_kit.Mechanisms.Session.Challenges.{authenticate-session}
use authn_kit.ActixService.{User, Scope, public, global, org, service_scope, try_from, display}
use authn_kit.ActixService.Wiring.{Surroundings}
use authn_kit.ActixService.Startup.{session_of}

-- No scope names its session cookie like the flow.
lookup-session :
    (scope : Scope) (value raw : Text)
    → lookup (display scope) ((str "session", value) ∷ []) ≢ some raw
unfolding lookup display str text_eq
lookup-session public value raw = cc
lookup-session global value raw = cc
lookup-session (org id) value raw = cc

module _ {Metadata Client IdToken Value Challenge Request Response W : Type 0}
    (s : Surroundings Metadata Client IdToken Value Challenge Request Response W)
    (provider : OidcProvider Metadata Client W) where
  -- A request that carries the cookie of a completed login of the service, and no other cookie, is
  -- authenticated by the session authenticator for no scope: a scope names another cookie.
  pub session_of-login :
      (ctx : AuthContext Scope) (value : Text) (w : W) (u : User)
      → ctx.request.cookies ≡ ((Login.new provider).session_cookie.name, value) ∷ []
      → ((session_of s provider).authenticate ctx w).0 ≢ ok (Verdict.authenticated u)
  unfolding session_authenticator cookie Login.new Login.with_codec session
  session_of-login ctx value w u carried h =
      let (raw, _, _, found, _, _, _) =
        (authenticate-session s.library s.clock s.debug s.encoding s.endpoint try_from
            (with_login_redirect (Login.new provider) (Session.new provider)) ctx w u).0
          h in
      lookup-session ctx.scope value raw (ap (lookup (display ctx.scope)) (sym carried) ∙ found)
