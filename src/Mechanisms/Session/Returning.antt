-- ===== src/Mechanisms/Session/Returning.antt =====
-- src/mechanisms/session.rs: who is sent to a login comes back to where he was.
use authn_kit.Prelude.{
  some_inj, subst, ◌≡◌, ◌≢◌, ◌⊎◌, inl, inr, refl, true, false, some, List, [], ◌∷◌, ◌++◌, is_empty,
  Bool-cases, Option-cases, sym, ◌∙◌, ◌==◌,
}
use authn_kit.Text.{Text, str, text_eq}
use authn_kit.Text.Laws.{text_eq_iff}
use authn_kit.Cookie.{CookieDirective}
use authn_kit.Error.{AuthError, status, redirect}
use authn_kit.Effect.{Result, ok, err, panic, Clock}
use authn_kit.Effect.Redirects.{is_redirect, redirects, redirects-err}
use authn_kit.Claims.{IdentityClaims}
use authn_kit.Credential.{is_none}
use authn_kit.Request.{AuthRequest, cookie}
use authn_kit.Scope.{AuthScope}
use authn_kit.Outcome.{Verdict}
use authn_kit.Authenticator.{AuthContext}
use authn_kit.Oidc.Provider.{Library, present, verify_id_token}
use authn_kit.Oidc.Provider.Answers.{verify_id_token-redirects}
use authn_kit.Oidc.Session.{Session}
use authn_kit.Oidc.Tokens.{TokenEndpoint}
use authn_kit.Oidc.Login.{
  AuthorizationRedirect, Encoding, AuthorizationEndpoint, LoginFlow, LoginComplete, CallbackParams,
  authorize,
}
use authn_kit.Oidc.Login.Answers.{authorize-redirects}
use authn_kit.Oidc.Login.Complete.{complete}
use authn_kit.Oidc.Login.Protection.{IsFaithful, complete-authorize}
use authn_kit.Mechanisms.Identity.{verdict_of}
use authn_kit.Mechanisms.Session.{
  SessionAuthenticator, destination, sent, challenge, after_verification, after_decoding,
  authenticate,
}

-- The place that a request asked for: its path, and what follows a question mark where there is a query.
abbrev pub Back : AuthRequest → Text → Type 0
Back request to =
    ((request.query ≡ []) × (to ≡ request.path))
    ⊎ ((request.query ≢ []) × (to ≡ request.path ++ str "?" ++ request.query))

empty_cases : (q : Text) → ((q ≡ []) × (is_empty q ≡ true)) ⊎ ((q ≢ []) × (is_empty q ≡ false))
empty_cases [] = inl (refl, refl)
empty_cases (c ∷ q) = inr (λ h. cc h, refl)

destination-Back : (request : AuthRequest) → Back request (destination request)
unfolding destination
destination-Back request = elim (empty_cases request.query) [
  | inl (h, b) ↦ inl (h, rw b refl)
  | inr (h, b) ↦ inr (h, rw b refl)
]

module _ {Metadata Client IdToken Value W Challenge Request U : Type 0}
    (library : Library Metadata Client IdToken Value W) (clock : Clock W) (debug : Text → Text)
    (e : Encoding) (endpoint : AuthorizationEndpoint Client Challenge Request W)
    (try_from : IdentityClaims Value → Text ⊎ U) (a : SessionAuthenticator Metadata Client W)
    (location : Text) (cookies : List CookieDirective) where
  -- A navigation was sent into the login, whose redirect has these cookies.
  abbrev Sent : AuthRequest → Type 0
  Sent request =
      (login : LoginFlow Metadata Client W) × (r : AuthorizationRedirect) × (w : W) × (a.login
        ≡ some login)
      × (request.method ≡ str "GET")
      × ((authorize library clock debug e endpoint login (destination request) w).0 ≡ ok r)
      × (r.cookies ≡ cookies)

  sent-redirect :
      (x : Result AuthorizationRedirect)
      → redirects x ≡ false
      → sent library clock debug e endpoint try_from a x ≡ err (redirect location cookies)
      → (r : AuthorizationRedirect) × (x ≡ ok r) × (r.cookies ≡ cookies)
  sent-redirect (ok r) plain h = (r, refl, cc h)
  sent-redirect (err d) plain h =
      absurd (redirects-err {A = Verdict U} (err d) location cookies plain h)
  sent-redirect (panic t) plain h = cc

  challenge-Sent :
      (request : AuthRequest) (fallback : AuthError) (w : W)
      → is_redirect fallback ≡ false
      → (challenge library clock debug e endpoint try_from a request fallback w).0
        ≡ err (redirect location cookies)
      → Sent request
  unfolding challenge
  challenge-Sent request fallback w plain h = elim (Option-cases a.login) [
    | inl n ↦ absurd (
        redirects-err {A = Verdict U} (err fallback) location cookies plain
          (rw (n, challenge) at h))
    | inr (login, n) ↦ elim (Bool-cases (text_eq request.method (str "GET"))) [
      | inr g ↦ absurd (
          redirects-err {A = Verdict U} (err fallback) location cookies plain
            (rw (n, g, challenge) at h))
      | inl g ↦
          let (r, began, same) =
            sent-redirect _
              (authorize-redirects library clock debug e endpoint login (destination request) w)
              (rw (n, g, challenge) at h) in
          (login, r, w, n, (text_eq_iff request.method (str "GET")).0 g, began, same)
    ]
  ]

  verdict_of-redirects :
      (label : Text) (x : Text ⊎ U) (w : W) → redirects (verdict_of label x w).0 ≡ false
  verdict_of-redirects label (inl d) w = refl
  verdict_of-redirects label (inr u) w = refl

  after_verification-Sent :
      (request : AuthRequest) (x : Result (IdentityClaims Value)) (w : W)
      → redirects x ≡ false
      → (after_verification library clock debug e endpoint try_from a request x w).0
        ≡ err (redirect location cookies)
      → Sent request
  unfolding after_verification
  after_verification-Sent request (ok claims) w plain h =
      absurd (redirects-err _ location cookies (verdict_of-redirects _ (try_from claims) w) h)
  after_verification-Sent request (err error) w plain h = elim (Bool-cases (status error == 401)) [
    | inl b ↦ challenge-Sent request error w plain (rw (b, after_verification) at h)
    | inr n ↦ absurd (
        redirects-err {A = Verdict U} (err error) location cookies plain
          (rw (n, after_verification) at h))
  ]
  after_verification-Sent request (panic t) w plain h = cc

  after_decoding-Sent :
      (request : AuthRequest) (x : Result Session) (w : W)
      → redirects x ≡ false
      → (after_decoding library clock debug e endpoint try_from a request x w).0
        ≡ err (redirect location cookies)
      → Sent request
  unfolding after_decoding
  after_decoding-Sent request (ok session) w plain h =
      let checked = verify_id_token library clock a.provider session.id_token present w in
      after_verification-Sent request checked.0 checked.1
        (verify_id_token-redirects library clock a.provider session.id_token present w) h
  after_decoding-Sent request (err error) w plain h = challenge-Sent request error w plain h
  after_decoding-Sent request (panic t) w plain h = cc

  module _ {S : Type 0} ⦃s : AuthScope S⦄ (ctx : AuthContext S) where
    authenticate-Sent :
        (w : W)
        → ((raw : Text) → redirects (a.codec.decode raw) ≡ false)
        → (authenticate library clock debug e endpoint try_from a ctx w).0
          ≡ err (redirect location cookies)
        → Sent ctx.request
    unfolding authenticate
    authenticate-Sent w plain h =
        elim (Option-cases (cookie ctx.request (s.session_cookie_name ctx.scope))) [
          | inr (raw, c) ↦
              after_decoding-Sent ctx.request (a.codec.decode raw) w (plain raw)
                (rw (c, authenticate) at h)
          | inl c ↦ elim (Bool-cases (is_none ctx.credential)) [
            | inl n ↦ challenge-Sent ctx.request _ w refl (rw (c, n, authenticate) at h)
            | inr n ↦ absurd (cc (rw (c, n, authenticate) at h))
          ]
        ]

    -- Whenever a request is answered with a redirect, be it for want of a session cookie or for a cookie
    -- that is refused, and the codec's own errors are none, then it is a `GET`; and a login that
    -- completes with the first cookie of that redirect sends the user back to the path of the
    -- request, with its query behind a question mark if there is one.
    pub authenticate-returns :
        {Exchange Response : Type 0} (tokens : TokenEndpoint Client Exchange Response W)
        (law : IsFaithful e) (login : LoginFlow Metadata Client W) (w v : W) (c : CookieDirective)
        (rest : List CookieDirective) (callback : CallbackParams) (done : LoginComplete Value)
        → ((raw : Text) → redirects (a.codec.decode raw) ≡ false)
        → (authenticate library clock debug e endpoint try_from a ctx w).0
          ≡ err (redirect location cookies)
        → cookies ≡ c ∷ rest
        → a.login ≡ some login
        → (complete library tokens clock e login callback (some c.value) v).0 ≡ ok done
        → (ctx.request.method ≡ str "GET") × Back ctx.request done.redirect_to
    authenticate-returns tokens law login w v c rest callback done plain h q l d =
        let (flow, r, w', named, get, began, same) = authenticate-Sent w plain h in
        let one : flow ≡ login = some_inj (sym named ∙ l) in
        let begun =
          subst
            (λ x.
              (authorize library clock debug e endpoint x (destination ctx.request) w').0 ≡ ok r)
            one began in
        let back =
          (complete-authorize library clock debug e endpoint login tokens law
            (destination ctx.request) w' v r c rest callback done begun (same ∙ q) d).0 in
        (get, subst (Back ctx.request) (sym back) (destination-Back ctx.request))
