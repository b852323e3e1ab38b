-- ===== src/Mechanisms/Session/Continuity.antt =====
-- src/mechanisms/session.rs and src/oidc/login.rs: the session that a login leaves in a cookie.
use authn_kit.Prelude.{
  [], some_inj, ◌≡◌, ◌↔◌, ◌⊎◌, inr, false, Option, some, List, ◌∷◌, is_empty, sym, ap, ◌∙◌,
}
use authn_kit.Text.{Text}
use authn_kit.Cookie.{CookieDirective}
use authn_kit.Effect.{ok, Clock}
use authn_kit.Effect.Laws.{ok_inj}
use authn_kit.Claims.{IdentityClaims}
use authn_kit.Request.{cookie}
use authn_kit.Scope.{AuthScope}
use authn_kit.Outcome.{Verdict}
use authn_kit.Authenticator.{AuthContext}
use authn_kit.Oidc.Provider.{Library, present, verify_id_token}
use authn_kit.Oidc.Session.{Session, SessionCodec, id_token_codec, set, clear}
use authn_kit.Oidc.Tokens.{TokenEndpoint}
use authn_kit.Oidc.Login.{
  ProtectionData, Encoding, AuthorizationEndpoint, CallbackParams, LoginComplete, LoginFlow,
}
use authn_kit.Oidc.Login.Complete.{complete}
use authn_kit.Oidc.Login.Completion.{Exchanged, complete-Exchanged}
use authn_kit.Mechanisms.Session.{SessionAuthenticator, authenticate}
use authn_kit.Mechanisms.Session.Challenges.{authenticate-session}

-- What the codec of ID tokens writes is the token of the session.
encode-token :
    (codec : SessionCodec) (session : Session) (value : Text)
    → codec ≡ id_token_codec
    → codec.encode session ≡ ok value
    → session.id_token ≡ value
unfolding id_token_codec
encode-token codec session value c h =
    ok_inj (sym (ap (λ (x : SessionCodec). x.encode session) c) ∙ h)

-- It reads the token back, and no expiry, unless the token is empty.
decode-token :
    (codec : SessionCodec) (token : Text)
    → codec ≡ id_token_codec
    → is_empty token ≡ false
    → codec.decode token ≡ ok (record { id_token = token; expires_at = Option.none })
unfolding id_token_codec
decode-token codec token c h = ap (λ (x : SessionCodec). x.decode token) c ∙ rw h

module _ {Metadata Client IdToken Value W Exchange Response : Type 0}
    (library : Library Metadata Client IdToken Value W)
    (tokens : TokenEndpoint Client Exchange Response W) (clock : Clock W) (e : Encoding)
    (login : LoginFlow Metadata Client W) where
  -- The first cookie of a completed login is that of the session.
  first_cookie :
      (destination : Text) (claims : IdentityClaims Value) (value : Text)
      (done : LoginComplete Value) (c : CookieDirective) (rest : List CookieDirective)
      → ◌≡◌ {A = LoginComplete Value}
          (record {
            claims = claims;
            redirect_to = destination;
            cookies = set login.session_cookie value ∷ clear login.protection_cookie ∷ [];
          })
          done
      → done.cookies ≡ c ∷ rest
      → (c.name ≡ login.session_cookie.name) × (c.value ≡ value)
  unfolding set
  first_cookie destination claims value done c rest h k =
      let same : set login.session_cookie value ≡ c =
        cc (ap (λ (x : LoginComplete Value). x.cookies) h ∙ k) in
      (
        ap (λ (x : CookieDirective). x.name) (sym same),
        ap (λ (x : CookieDirective). x.value) (sym same),
      )

  module _ {U : Type 0} (try_from : IdentityClaims Value → Text ⊎ U)
      (a : SessionAuthenticator Metadata Client W) where
    -- The token is verified, carries a nonce, and its claims convert to the user.
    abbrev pub IsUsable : Text → W → U → Type 0
    IsUsable token w u =
        (claims : IdentityClaims Value) × ((verify_id_token library clock a.provider token present
            w).0
          ≡ ok claims)
        × (try_from claims ≡ inr u)

  module _ {Challenge Request U S : Type 0} ⦃s : AuthScope S⦄ (debug : Text → Text)
      (endpoint : AuthorizationEndpoint Client Challenge Request W)
      (try_from : IdentityClaims Value → Text ⊎ U)
      (a : SessionAuthenticator Metadata Client W) where
    -- With the codec of ID tokens, the cookie that the scope names is the token.
    carried_token :
        (ctx : AuthContext S) (token : Text) (w : W) (u : U)
        → a.codec ≡ id_token_codec
        → is_empty token ≡ false
        → cookie ctx.request (s.session_cookie_name ctx.scope) ≡ some token
        → ((authenticate library clock debug e endpoint try_from a ctx w).0
            ≡ ok (Verdict.authenticated u))
          ↔ IsUsable try_from a token w u
    carried_token ctx token w u l n found =
        let (read, made) = authenticate-session library clock debug e endpoint try_from a ctx w u in
        let decodes = decode-token a.codec token l n in
        (
          λ h.
              let (raw, session, claims, held, decoded, verifies, converts) = read h in
              let same = some_inj (sym held ∙ found) in
              let shown = ok_inj (sym decoded ∙ ap a.codec.decode same ∙ decodes) in
              (
                claims,
                ap
                      (λ (x : Session).
                        (verify_id_token library clock a.provider x.id_token present w).0)
                      (sym shown)
                    ∙ verifies,
                converts,
              ),
          λ (claims, verifies, converts). made (
            token,
            record { id_token = token; expires_at = Option.none },
            claims,
            found,
            decodes,
            verifies,
            converts,
          ),
        )

    -- With the codec of ID tokens on both sides: a request that carries the first cookie of a completed
    -- login, which is not empty, under the name that its scope reads, is authenticated as a user
    -- exactly if the ID token for which the provider exchanged the code is, at that later time,
    -- verified and carries a nonce, and its claims convert to the user.
    pub authenticate-complete :
        (callback : CallbackParams) (protection : Option Text) (v : W) (done : LoginComplete Value)
        (c : CookieDirective) (rest : List CookieDirective) (ctx : AuthContext S) (w : W) (u : U)
        → login.codec ≡ id_token_codec
        → a.codec ≡ id_token_codec
        → (complete library tokens clock e login callback protection v).0 ≡ ok done
        → done.cookies ≡ c ∷ rest
        → is_empty c.value ≡ false
        → s.session_cookie_name ctx.scope ≡ login.session_cookie.name
        → cookie ctx.request c.name ≡ some c.value
        → (code : Text) × (p : ProtectionData) × (x : Exchanged library tokens clock e login p code
            v done)
          × (((authenticate library clock debug e endpoint try_from a ctx w).0
                ≡ ok (Verdict.authenticated u))
              ↔ IsUsable try_from a x.token w u)
    authenticate-complete callback protection v done c rest ctx w u k l d q n m found =
        let (code, raw, p, called, presented, decoded, x) =
          complete-Exchanged library tokens clock e login callback protection v done d in
        let f = x.finished in
        let (named, valued) = first_cookie p.destination f.claims f.value done c rest f.result q in
        let same : c.value ≡ x.token =
          valued ∙ sym (encode-token login.codec _ f.value k f.encodes) in
        (
          code,
          p,
          x,
          carried_token ctx x.token w u l (ap is_empty (sym same) ∙ n)
              (ap (cookie ctx.request) (m ∙ sym named) ∙ found ∙ ap some same),
        )
