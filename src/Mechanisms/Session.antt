-- ===== src/Mechanisms/Session.antt =====
-- src/mechanisms/session.rs: browser sessions, from the cookie that the scope names.
pub mod Challenges
pub mod Navigation
pub mod Continuity
pub mod Returning
use authn_kit.Prelude.{
  Bool, true, false, not, ◌||◌, ◌++◌, ◌⊎◌, ◌==◌, Option, none, some, List, is_empty, if◌then◌else◌,
}
use authn_kit.Text.{Text, str, text_eq}
use authn_kit.Error.{AuthError, unauthenticated, redirect, status}
use authn_kit.Effect.{Result, ok, err, panic, M, pure, fail, lift, Clock, ◌>>=◌}
use authn_kit.Claims.{IdentityClaims}
use authn_kit.Request.{AuthRequest, cookie}
use authn_kit.Credential.{is_none}
use authn_kit.Scope.{AuthScope}
use authn_kit.Outcome.{Verdict}
use authn_kit.Authenticator.{Authenticator, AuthContext}
use authn_kit.Oidc.Provider.{Library, OidcProvider, present, verify_id_token}
use authn_kit.Oidc.Session.{Session, SessionCodec, id_token_codec}
use authn_kit.Oidc.Login.{
  AuthorizationRedirect, Encoding, AuthorizationEndpoint, LoginFlow, authorize,
}
use authn_kit.Mechanisms.Identity.{verdict_of}

pub record SessionAuthenticator (Metadata Client W : Type 0) : Type 0 where
  pub provider : OidcProvider Metadata Client W
  pub codec : SessionCodec
  pub login : Option (LoginFlow Metadata Client W)

module _ {Metadata Client W : Type 0} where
  unfoldable pub with_codec :
      OidcProvider Metadata Client W → SessionCodec → SessionAuthenticator Metadata Client W
  with_codec provider codec = record { provider = provider; codec = codec; login = none }

  unfoldable pub new : OidcProvider Metadata Client W → SessionAuthenticator Metadata Client W
  unfolding with_codec
  new provider = with_codec provider id_token_codec

  unfoldable pub with_login_redirect :
      LoginFlow Metadata Client W
      → SessionAuthenticator Metadata Client W
      → SessionAuthenticator Metadata Client W
  with_login_redirect login a = record a { login = some login }

-- where the browser was
unfoldable pub destination : AuthRequest → Text
destination request =
    if not (is_empty request.query) then request.path ++ str "?" ++ request.query else request.path

module _ {Metadata Client IdToken Value W Challenge Request U : Type 0}
    (library : Library Metadata Client IdToken Value W) (clock : Clock W) (debug : Text → Text)
    (e : Encoding) (endpoint : AuthorizationEndpoint Client Challenge Request W)
    (try_from : IdentityClaims Value → Text ⊎ U) (a : SessionAuthenticator Metadata Client W) where
  -- the match on what `authorize` answers, within `Err(..)`; a panic goes on
  abbrev pub sent : Result AuthorizationRedirect → Result (Verdict U)
  sent (ok r) = err (redirect r.location r.cookies)
  sent (err error) = err error
  sent (panic t) = panic t

  abbrev pub into_login : LoginFlow Metadata Client W → AuthRequest → M W (Verdict U)
  into_login login request w =
      let (r, w') = authorize library clock debug e endpoint login (destination request) w in
      (sent r, w')

  -- `Err(self.challenge(ctx, fallback))`
  unfoldable pub challenge : AuthRequest → AuthError → M W (Verdict U)
  unfolding destination
  challenge request fallback = elim a.login [
    | none ↦ fail fallback
    | some login ↦
        if not (text_eq request.method (str "GET")) then fail fallback else into_login login request
  ]

  -- the match on the verification of the session's token
  unfoldable pub after_verification : AuthRequest → Result (IdentityClaims Value) → M W (Verdict U)
  unfolding challenge status
  after_verification request (ok claims) =
      verdict_of (str "session identity conversion") (try_from claims)
  after_verification request (err error) =
      if status error == 401 then challenge request error else fail error
  after_verification request (panic t) = lift (panic t)

  -- the match on the decoded cookie, and what follows it
  unfoldable pub after_decoding : AuthRequest → Result Session → M W (Verdict U)
  unfolding challenge after_verification
  after_decoding request (ok session) w =
      let (r, w') = verify_id_token library clock a.provider session.id_token present w in
      after_verification request r w'
  after_decoding request (err error) w = challenge request error w
  after_decoding request (panic t) w = (panic t, w)

  module _ {S : Type 0} ⦃s : AuthScope S⦄ where
    unfoldable pub authenticate : AuthContext S → M W (Verdict U)
    unfolding challenge after_decoding is_none
    authenticate ctx = elim (cookie ctx.request (s.session_cookie_name ctx.scope)) [
      | none ↦
          if not (is_none ctx.credential)
          then pure Verdict.not_applicable
          else challenge ctx.request (unauthenticated (str "no session cookie"))
      | some raw ↦ after_decoding ctx.request (a.codec.decode raw)
    ]

    unfoldable pub session_authenticator : Authenticator U S W
    unfolding authenticate
    session_authenticator = record { name = str "session"; authenticate = authenticate }
