-- ===== src/Mechanisms/Session/Challenges.antt =====
-- src/mechanisms/session.rs: which requests a session authenticates, and which are sent to a login.
use authn_kit.Prelude.{
  ◌≡◌, ◌≢◌, ◌↔◌, ◌⊎◌, inl, inr, refl, true, false, none, some, Bool-cases, Option-cases, sym, ap,
  ◌∙◌, ◌==◌,
}
use authn_kit.Text.{Text, str, text_eq}
use authn_kit.Error.{AuthError, status, unauthenticated}
use authn_kit.Effect.{Result, ok, err, panic, Clock}
use authn_kit.Claims.{IdentityClaims}
use authn_kit.Credential.{is_none}
use authn_kit.Request.{AuthRequest, cookie}
use authn_kit.Scope.{AuthScope}
use authn_kit.Outcome.{Verdict}
use authn_kit.Authenticator.{AuthContext}
use authn_kit.Oidc.Provider.{Library, present, verify_id_token}
use authn_kit.Oidc.Session.{Session}
use authn_kit.Oidc.Login.{AuthorizationRedirect, Encoding, AuthorizationEndpoint}
use authn_kit.Mechanisms.Identity.{verdict_of-ok}
use authn_kit.Mechanisms.Session.{
  SessionAuthenticator, sent, challenge, after_verification, after_decoding, authenticate,
}

module _ {Metadata Client IdToken Value W Challenge Request U : Type 0}
    (library : Library Metadata Client IdToken Value W) (clock : Clock W) (debug : Text → Text)
    (e : Encoding) (endpoint : AuthorizationEndpoint Client Challenge Request W)
    (try_from : IdentityClaims Value → Text ⊎ U) (a : SessionAuthenticator Metadata Client W) where
  sent-authenticated :
      (r : Result AuthorizationRedirect) (v : Verdict U)
      → sent library clock debug e endpoint try_from a r ≢ ok v
  sent-authenticated (ok r) v = cc
  sent-authenticated (err d) v = cc
  sent-authenticated (panic t) v = cc

  -- A challenge is never a verdict.
  challenge-refuses :
      (request : AuthRequest) (fallback : AuthError) (w : W) (v : Verdict U)
      → (challenge library clock debug e endpoint try_from a request fallback w).0 ≢ ok v
  unfolding challenge
  challenge-refuses request fallback w v h = elim (Option-cases a.login) [
    | inl n ↦ absurd (cc (rw (n, challenge) at h))
    | inr (login, n) ↦ elim (Bool-cases (text_eq request.method (str "GET"))) [
      | inr g ↦ absurd (cc (rw (n, g, challenge) at h))
      | inl g ↦ sent-authenticated _ v (rw (n, g, challenge) at h)
    ]
  ]

  after_verification-ok :
      (request : AuthRequest) (r : Result (IdentityClaims Value)) (w : W) (v : Verdict U)
      → (after_verification library clock debug e endpoint try_from a request r w).0 ≡ ok v
      → (claims : IdentityClaims Value) × (u : U) × (r ≡ ok claims)
        × (try_from claims ≡ inr u)
        × (v ≡ Verdict.authenticated u)
  unfolding after_verification
  after_verification-ok request (ok claims) w v h =
      let (u, converts, same) = verdict_of-ok _ (try_from claims) w v h in
      (claims, u, refl, converts, same)
  after_verification-ok request (err error) w v h = elim (Bool-cases (status error == 401)) [
    | inl b ↦ absurd (challenge-refuses request error w v (rw (b, after_verification) at h))
    | inr n ↦ absurd (cc (rw (n, after_verification) at h))
  ]
  after_verification-ok request (panic t) w v h = cc

  after_decoding-ok :
      (request : AuthRequest) (r : Result Session) (w : W) (v : Verdict U)
      → (after_decoding library clock debug e endpoint try_from a request r w).0 ≡ ok v
      → (session : Session) × (claims : IdentityClaims Value) × (u : U) × (r ≡ ok session)
        × ((verify_id_token library clock a.provider session.id_token present w).0 ≡ ok claims)
        × (try_from claims ≡ inr u)
        × (v ≡ Verdict.authenticated u)
  unfolding after_decoding
  after_decoding-ok request (ok session) w v h =
      let checked = verify_id_token library clock a.provider session.id_token present w in
      let (claims, u, verifies, converts, same) =
        after_verification-ok request checked.0 checked.1 v h in
      (session, claims, u, refl, verifies, converts, same)
  after_decoding-ok request (err error) w v h = absurd (challenge-refuses request error w v h)
  after_decoding-ok request (panic t) w v h = cc

  decoded-authenticated :
      (request : AuthRequest) (r : Result Session) (session : Session)
      (claims : IdentityClaims Value) (w : W) (u : U)
      → r ≡ ok session
      → (verify_id_token library clock a.provider session.id_token present w).0 ≡ ok claims
      → try_from claims ≡ inr u
      → (after_decoding library clock debug e endpoint try_from a request r w).0
        ≡ ok (Verdict.authenticated u)
  unfolding after_decoding after_verification
  decoded-authenticated request r session claims w u decodes verifies converts =
      rw (decodes, after_decoding) (rw (verifies, after_verification) (rw converts))

  module _ {S : Type 0} ⦃s : AuthScope S⦄ (ctx : AuthContext S) where
    with_cookie :
        (raw : Text) (w : W)
        → cookie ctx.request (s.session_cookie_name ctx.scope) ≡ some raw
        → authenticate library clock debug e endpoint try_from a ctx w
          ≡ after_decoding library clock debug e endpoint try_from a ctx.request
              (a.codec.decode raw)
              w
    unfolding authenticate
    with_cookie raw w c = rw (c, authenticate)

    elsewhere :
        (w : W)
        → cookie ctx.request (s.session_cookie_name ctx.scope) ≡ none
        → is_none ctx.credential ≡ false
        → authenticate library clock debug e endpoint try_from a ctx w
          ≡ (ok Verdict.not_applicable, w)
    unfolding authenticate
    elsewhere w c n = rw (c, n, authenticate)

    absent :
        (w : W)
        → cookie ctx.request (s.session_cookie_name ctx.scope) ≡ none
        → is_none ctx.credential ≡ true
        → authenticate library clock debug e endpoint try_from a ctx w
          ≡ challenge library clock debug e endpoint try_from a ctx.request
              (unauthenticated (str "no session cookie"))
              w
    unfolding authenticate
    absent w c n = rw (c, n, authenticate)

    -- The cookie that the scope names decodes to a session, whose ID token is verified and carries a
    -- nonce, and whose claims convert to the user.
    abbrev pub HasSession : W → U → Type 0
    HasSession w u =
        (raw : Text) × (session : Session) × (claims : IdentityClaims Value) × (cookie ctx.request
            (s.session_cookie_name ctx.scope)
          ≡ some raw)
        × (a.codec.decode raw ≡ ok session)
        × ((verify_id_token library clock a.provider session.id_token present w).0 ≡ ok claims)
        × (try_from claims ≡ inr u)

    authenticate-HasSession :
        (w : W) (u : U)
        → (authenticate library clock debug e endpoint try_from a ctx w).0
          ≡ ok (Verdict.authenticated u)
        → HasSession w u
    authenticate-HasSession w u h =
        elim (Option-cases (cookie ctx.request (s.session_cookie_name ctx.scope))) [
          | inr (raw, c) ↦
              let (session, claims, user, decodes, verifies, converts, same) =
                after_decoding-ok ctx.request (a.codec.decode raw) w _
                  (ap (λ r. r.0) (sym (with_cookie raw w c)) ∙ h) in
              let named : u ≡ user = cc same in
              (raw, session, claims, c, decodes, verifies, converts ∙ ap inr (sym named))
          | inl c ↦ elim (Bool-cases (is_none ctx.credential)) [
            | inl n ↦
                absurd
                  (challenge-refuses ctx.request _ w _ (ap (λ r. r.0) (sym (absent w c n)) ∙ h))
            | inr n ↦ absurd (cc (ap (λ r. r.0) (sym (elsewhere w c n)) ∙ h))
          ]
        ]

    -- A user is authenticated exactly if the cookie that the scope names decodes to a session, whose ID
    -- token is verified and carries a nonce, and whose claims convert to the user.
    pub authenticate-session :
        (w : W) (u : U)
        → ((authenticate library clock debug e endpoint try_from a ctx w).0
            ≡ ok (Verdict.authenticated u))
          ↔ HasSession w u
    authenticate-session w u = (
      authenticate-HasSession w u,
      λ (raw, session, claims, c, decodes, verifies, converts).
          ap (λ r. r.0) (with_cookie raw w c)
          ∙ decoded-authenticated ctx.request (a.codec.decode raw) session claims w u decodes
              verifies converts,
    )

    -- The authenticator declines exactly the requests that have no session cookie and present another
    -- credential, and then it changes nothing.
    pub authenticate-declines_session_iff :
        (w : W)
        → (((authenticate library clock debug e endpoint try_from a ctx w).0
              ≡ ok Verdict.not_applicable)
            ↔ ((cookie ctx.request (s.session_cookie_name ctx.scope) ≡ none)
                × (is_none ctx.credential ≡ false)))
          × ((cookie ctx.request (s.session_cookie_name ctx.scope) ≡ none)
              → is_none ctx.credential ≡ false
              → (authenticate library clock debug e endpoint try_from a ctx w).1 ≡ w)
    authenticate-declines_session_iff w = (
      (
        λ h. elim (Option-cases (cookie ctx.request (s.session_cookie_name ctx.scope))) [
          | inr (raw, c) ↦
              let (_, _, user, _, _, _, same) =
                after_decoding-ok ctx.request (a.codec.decode raw) w _
                  (ap (λ r. r.0) (sym (with_cookie raw w c)) ∙ h) in
              absurd (cc same)
          | inl c ↦ elim (Bool-cases (is_none ctx.credential)) [
            | inl n ↦
                absurd
                  (challenge-refuses ctx.request _ w _ (ap (λ r. r.0) (sym (absent w c n)) ∙ h))
            | inr n ↦ (c, n)
          ]
        ],
        λ (c, n). ap (λ r. r.0) (elsewhere w c n),
      ),
      λ c n. ap (λ r. r.1) (elsewhere w c n),
    )
