-- ===== src/Oidc/Login/Protection.antt =====
-- src/oidc/login.rs: the protection cookie, from the start of a login to its completion.
use authn_kit.Prelude.{
  some_inj, ℕ, ◌≡◌, ◌⊎◌, inl, inr, refl, sym, false, Option, some, List, ◌∷◌, arith, ap, ◌∙◌, All,
}
use authn_kit.Text.{Text, is_control}
use authn_kit.Cookie.{CookieDirective}
use authn_kit.Effect.{ok, run, lift, pure, Clock, ◌>>=◌}
use authn_kit.Effect.Laws.{bind-ok, ok_inj}
use authn_kit.Oidc.Provider.{Library}
use authn_kit.Oidc.Session.{set}
use authn_kit.Oidc.Tokens.{TokenEndpoint}
use authn_kit.Oidc.Login.{
  ProtectionData, Encoding, encode, decode, CallbackParams, success, AuthorizationRedirect,
  AuthorizationEndpoint, LoginComplete, LoginFlow, draw_pkce, request_scopes, challenged,
  protection_of, redirect_of, authorize_valid, authorize,
}
use authn_kit.Oidc.Login.Redirect.{validate}
use authn_kit.Oidc.Login.Destinations.{IsPath, IsListed, validate_iff}
use authn_kit.Oidc.Login.Complete.{completed, complete}
use authn_kit.Oidc.Login.Completion.{complete-Exchanged}

-- What the source relies on of `base64` and `serde_json`: what they encode, they decode.
pub record IsFaithful (e : Encoding) : Type 0 where
  pub decodes : (bytes : List ℕ) → e.decode64 (e.encode64 bytes) ≡ inr bytes
  pub parses :
      (p : ProtectionData) (json : List ℕ) → e.to_vec p ≡ inr json → e.from_slice json ≡ inr p

module _ (e : Encoding) (law : IsFaithful e) where
  encoded :
      (p : ProtectionData) (value : Text) (v : Text ⊎ List ℕ)
      → e.to_vec p ≡ v
      → encode e p ≡ ok value
      → (json : List ℕ) × (v ≡ inr json) × (e.encode64 json ≡ value)
  unfolding encode
  encoded p value (inl detail) h k = absurd (ground (arith, h, k))
  encoded p value (inr json) h k = (json, refl, ok_inj (rw (h, encode) at k))

  -- The value of the protection cookie decodes to the data that it was made of.
  pub decode-encode :
      (p : ProtectionData) (value : Text) → encode e p ≡ ok value → decode e value ≡ ok p
  unfolding decode
  decode-encode p value h =
      let (json, made, shown) = encoded p value (e.to_vec p) refl h in
      ground (arith, shown, law.decodes json, law.parses p json made)

module _ {Metadata Client IdToken Value W Challenge Request : Type 0}
    (library : Library Metadata Client IdToken Value W) (clock : Clock W) (debug : Text → Text)
    (e : Encoding) (endpoint : AuthorizationEndpoint Client Challenge Request W)
    (f : LoginFlow Metadata Client W) where
  -- How a login begins: the redirect of a request, and the cookie that protects it.
  pub record Begun (destination : Text) (r : AuthorizationRedirect) : Type 0 where
    pub request : Request
    pub verifier : Option Text
    pub value : Text
    pub valid : validate debug f.redirect_policy destination ≡ ok tt
    pub encodes :
        encode e (protection_of library clock debug e endpoint f destination verifier request)
        ≡ ok value
    pub result : redirect_of library clock debug e endpoint f request value ≡ r

  after_draw :
      (destination : Text) (challenge : Option Challenge) (verifier : Option Text) (client : Client)
      (w : W) (r : AuthorizationRedirect)
      → validate debug f.redirect_policy destination ≡ ok tt
      → ((do
        start ← run (endpoint.authorize_url client)
        let request =
            challenged library clock debug e endpoint f challenge
              (request_scopes library clock debug e endpoint f f.provider.config.scopes start)
        value ←
            lift (
              encode e
                (protection_of library clock debug e endpoint f destination verifier request))
        pure (redirect_of library clock debug e endpoint f request value))
          w).0
        ≡ ok r
      → Begun destination r
  after_draw destination challenge verifier client w r valid h =
      let start = (endpoint.authorize_url client w).0 in
      let request =
        challenged library clock debug e endpoint f challenge
          (request_scopes library clock debug e endpoint f f.provider.config.scopes start) in
      let (value, encodes, end) =
        bind-ok {W = W}
          (lift (
            encode e (protection_of library clock debug e endpoint f destination verifier request)))
          _ _ r h in
      record {
        request = request;
        verifier = verifier;
        value = value;
        valid = valid;
        encodes = encodes;
        result = ok_inj end;
      }

  authorize_valid-ok :
      (destination : Text) (w : W) (r : AuthorizationRedirect)
      → validate debug f.redirect_policy destination ≡ ok tt
      → (authorize_valid library clock debug e endpoint f destination w).0 ≡ ok r
      → Begun destination r
  unfolding authorize_valid
  authorize_valid-ok destination w r valid h =
      let config = f.provider.config in
      let (drawn, _, h₁) =
        bind-ok (draw_pkce library clock debug e endpoint f config.use_pkce) _ w r h in
      after_draw destination drawn.0 drawn.1 _ _ r valid h₁

  authorize-ok :
      (destination : Text) (w : W) (r : AuthorizationRedirect)
      → (authorize library clock debug e endpoint f destination w).0 ≡ ok r
      → Begun destination r
  unfolding authorize
  authorize-ok destination w r h =
      let (done, valid, rest) =
        bind-ok {W = W} (lift (validate debug f.redirect_policy destination)) _ w r h in
      authorize_valid-ok destination w r valid rest

  -- The first cookie of the redirect holds the encoded data.
  first_value :
      (request : Request) (value : Text) (r : AuthorizationRedirect) (c : CookieDirective)
      (rest : List CookieDirective)
      → redirect_of library clock debug e endpoint f request value ≡ r
      → r.cookies ≡ c ∷ rest
      → c.value ≡ value
  unfolding redirect_of set
  first_value request value r c rest h k =
      let same : set f.protection_cookie value ≡ c =
        cc (ap (λ (x : AuthorizationRedirect). x.cookies) h ∙ k) in
      ap (λ (x : CookieDirective). x.value) (sym same)

  module _ {Exchange Response : Type 0} (tokens : TokenEndpoint Client Exchange Response W)
      (law : IsFaithful e) where
    -- A login that was begun with a destination and completes with the cookie of that beginning sends
    -- the user to this very destination, which the redirect policy accepts, and only for a callback
    -- with the state that was drawn for that beginning.
    pub complete-authorize :
        (destination : Text) (w v : W) (r : AuthorizationRedirect) (c : CookieDirective)
        (rest : List CookieDirective) (callback : CallbackParams) (done : LoginComplete Value)
        → (authorize library clock debug e endpoint f destination w).0 ≡ ok r
        → r.cookies ≡ c ∷ rest
        → (complete library tokens clock e f callback (some c.value) v).0 ≡ ok done
        → (done.redirect_to ≡ destination)
          × All (λ x. is_control x ≡ false) destination
          × (IsPath destination ⊎ IsListed f.redirect_policy destination)
          × ((code : Text) × (b : Begun destination r) × (callback
                ≡ success code (endpoint.url b.request).1))
    unfolding completed
    complete-authorize destination w v r c rest callback done h k d =
        let b = authorize-ok destination w r h in
        let (code, raw, p, called, presented, decoded, exchanged) =
          complete-Exchanged library tokens clock e f callback (some c.value) v done d in
        let shown = first_value b.request b.value r c rest b.result k in
        let same : p
            ≡ protection_of library clock debug e endpoint f destination b.verifier b.request =
          ok_inj (
            sym decoded
            ∙ ap (decode e) (some_inj (sym presented) ∙ shown)
            ∙ decode-encode e law _ b.value b.encodes) in
        let (printable, reachable) = (validate_iff debug f.redirect_policy destination).0 b.valid in
        (
          ap (λ (x : LoginComplete Value). x.redirect_to) (sym exchanged.finished.result)
              ∙ ap (λ (x : ProtectionData). x.destination) same,
          printable,
          reachable,
          (code, b, called ∙ ap (λ (x : ProtectionData). success code x.csrf) same),
        )
