-- ===== src/Mechanisms/Session/Navigation.antt =====
-- src/mechanisms/session.rs: only a `GET` is sent to a login.
use authn_kit.Prelude.{◌≡◌, ◌≢◌, ◌⊎◌, inl, inr, refl, none, Bool-cases, Option-cases, ◌==◌}
use authn_kit.Text.{Text, str, text_eq}
use authn_kit.Text.Laws.{text_eq_iff}
use authn_kit.Error.{AuthError, status}
use authn_kit.Effect.{Result, ok, err, panic, Clock}
use authn_kit.Claims.{IdentityClaims}
use authn_kit.Credential.{is_none}
use authn_kit.Request.{AuthRequest, cookie}
use authn_kit.Scope.{AuthScope}
use authn_kit.Authenticator.{AuthContext}
use authn_kit.Oidc.Provider.{Library, present, verify_id_token}
use authn_kit.Oidc.Session.{Session}
use authn_kit.Oidc.Login.{Encoding, AuthorizationEndpoint}
use authn_kit.Mechanisms.Session.{
  SessionAuthenticator, challenge, after_verification, after_decoding, authenticate,
}

module _ {Metadata Client IdToken Value W Challenge Request U : Type 0}
    (library : Library Metadata Client IdToken Value W) (clock : Clock W) (debug : Text → Text)
    (e : Encoding) (endpoint : AuthorizationEndpoint Client Challenge Request W)
    (try_from : IdentityClaims Value → Text ⊎ U) (a : SessionAuthenticator Metadata Client W)
    (request : AuthRequest) (elsewise : request.method ≢ str "GET") where
  -- the authenticator without a login
  abbrev closed : SessionAuthenticator Metadata Client W
  closed = record a { login = none }

  challenge-closed :
      (fallback : AuthError) (w : W)
      → challenge library clock debug e endpoint try_from a request fallback w
        ≡ challenge library clock debug e endpoint try_from closed request fallback w
  unfolding challenge
  challenge-closed fallback w = elim (Option-cases a.login) [
    | inl n ↦ rw (n, challenge)
    | inr (login, n) ↦ elim (Bool-cases (text_eq request.method (str "GET"))) [
      | inl g ↦ absurd (elsewise ((text_eq_iff request.method (str "GET")).0 g))
      | inr g ↦ rw (n, g, challenge)
    ]
  ]

  after_verification-closed :
      (r : Result (IdentityClaims Value)) (w : W)
      → after_verification library clock debug e endpoint try_from a request r w
        ≡ after_verification library clock debug e endpoint try_from closed request r w
  unfolding after_verification
  after_verification-closed (ok claims) w = refl
  after_verification-closed (err error) w = elim (Bool-cases (status error == 401)) [
    | inl b ↦ rw (b, after_verification) (challenge-closed error w)
    | inr n ↦ rw (n, after_verification)
  ]
  after_verification-closed (panic t) w = refl

  after_decoding-closed :
      (r : Result Session) (w : W)
      → after_decoding library clock debug e endpoint try_from a request r w
        ≡ after_decoding library clock debug e endpoint try_from closed request r w
  unfolding after_decoding
  after_decoding-closed (ok session) w =
      let checked = verify_id_token library clock a.provider session.id_token present w in
      after_verification-closed checked.0 checked.1
  after_decoding-closed (err error) w = challenge-closed error w
  after_decoding-closed (panic t) w = refl

module _ {Metadata Client IdToken Value W Challenge Request U S : Type 0} ⦃s : AuthScope S⦄
    (library : Library Metadata Client IdToken Value W) (clock : Clock W) (debug : Text → Text)
    (e : Encoding) (endpoint : AuthorizationEndpoint Client Challenge Request W)
    (try_from : IdentityClaims Value → Text ⊎ U) (a : SessionAuthenticator Metadata Client W)
    (ctx : AuthContext S) where
  -- A request with another method than `GET` is never sent to a login: it is answered, whatever its
  -- cookie is, as by the authenticator that has no login flow.
  pub authenticate-not_get :
      (w : W)
      → ctx.request.method ≢ str "GET"
      → authenticate library clock debug e endpoint try_from a ctx w
        ≡ authenticate library clock debug e endpoint try_from (record a { login = none }) ctx w
  unfolding authenticate
  authenticate-not_get w h =
      elim (Option-cases (cookie ctx.request (s.session_cookie_name ctx.scope))) [
        | inr (raw, c) ↦
            rw (c, authenticate)
              (after_decoding-closed library clock debug e endpoint try_from a ctx.request h
                (a.codec.decode raw) w)
        | inl c ↦ elim (Bool-cases (is_none ctx.credential)) [
          | inl n ↦
              rw (c, n, authenticate)
                (challenge-closed library clock debug e endpoint try_from a ctx.request h _ w)
          | inr n ↦ rw (c, n, authenticate)
        ]
      ]
