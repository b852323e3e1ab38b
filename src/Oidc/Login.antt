-- ===== src/Oidc/Login.antt =====
-- src/oidc/login.rs: the authorization-code flow. The calls of `openidconnect`, `base64`,
-- `serde_json` and `url` are parameters; tokens, nonces and secrets are their texts.
pub mod Redirect
pub mod Destinations
pub mod Callback
pub mod Complete
pub mod Protection
pub mod Answers
pub mod Completion
use authn_kit.Prelude.{
  ℕ, Bool, true, false, ◌++◌, ◌⊎◌, inl, inr, Option, none, some, List, [], ◌∷◌, if◌then◌else◌,
  get_or,
}
use authn_kit.Text.{Text, str, text_eq}
use authn_kit.Cookie.{CookieDirective}
use authn_kit.Error.{AuthError, unauthenticated, upstream, internal}
use authn_kit.Effect.{Result, ok, err, M, pure, fail, lift, run, Clock, ◌>>=◌, ◌>>◌}
use authn_kit.Claims.{IdentityClaims}
use authn_kit.Oidc.Provider.{Library, OidcProvider, Snapshot, matches, snapshot, verify_id_token}
use authn_kit.Oidc.Session.{
  Session, SessionCodec, id_token_codec, CookieSettings, session, protection, set, clear,
}
use authn_kit.Oidc.Tokens.{TokenEndpoint, started, exchange, carried}
use authn_kit.Oidc.Login.Redirect.{RedirectPolicy, relative_only, validate}

pub record ProtectionData : Type 0 where
  pub csrf : Text
  pub nonce : Text
  pub pkce_verifier : Option Text
  pub destination : Text

-- `serde_json` at this type, and the base64 engine `URL_SAFE_NO_PAD`; an error is its message.
pub record Encoding : Type 0 where
  pub to_vec : ProtectionData → Text ⊎ List ℕ
  pub from_slice : List ℕ → Text ⊎ ProtectionData
  pub encode64 : List ℕ → Text
  pub decode64 : Text → Text ⊎ List ℕ

module _ (e : Encoding) where
  unfoldable pub encode : ProtectionData → Result Text
  encode p = elim (e.to_vec p) [
    | inl detail ↦ err (internal (str "could not serialise protection data: " ++ detail))
    | inr json ↦ ok (e.encode64 json)
  ]

  abbrev parsed_payload : Text ⊎ ProtectionData → Result ProtectionData
  parsed_payload (inl detail) =
      err (unauthenticated (str "bad protection cookie payload: " ++ detail))
  parsed_payload (inr p) = ok p

  unfoldable pub decode : Text → Result ProtectionData
  decode raw = elim (e.decode64 raw) [
    | inl detail ↦ err (unauthenticated (str "bad protection cookie: " ++ detail))
    | inr bytes ↦ parsed_payload (e.from_slice bytes)
  ]

pub record AuthorizationRedirect : Type 0 where
  pub location : Text
  pub cookies : List CookieDirective

pub data CallbackParams : Type 0 where
  success : Text → Text → CallbackParams
  failure : Text → Option Text → CallbackParams

pub record LoginComplete (Value : Type 0) : Type 0 where
  pub claims : IdentityClaims Value
  pub redirect_to : Text
  pub cookies : List CookieDirective

pub record LoginFlow (Metadata Client W : Type 0) : Type 0 where
  pub provider : OidcProvider Metadata Client W
  pub codec : SessionCodec
  pub session_cookie : CookieSettings
  pub protection_cookie : CookieSettings
  pub redirect_policy : RedirectPolicy

-- The authorization request: `authorize_url` draws the CSRF token and the nonce that `url` answers
-- with the URL.
pub record AuthorizationEndpoint (Client Challenge Request W : Type 0) : Type 0 where
  pub new_random_sha256 : W → (Challenge × Text) × W
  pub authorize_url : Client → W → Request × W
  pub add_scope : Text → Request → Request
  pub set_pkce_challenge : Challenge → Request → Request
  pub url : Request → Text × Text × Text

module _ {Metadata Client W : Type 0} where
  unfoldable pub with_codec :
      OidcProvider Metadata Client W → SessionCodec → LoginFlow Metadata Client W
  unfolding session protection
  with_codec provider codec = record {
    provider = provider;
    codec = codec;
    session_cookie = session (str "session");
    protection_cookie = protection (str "authn_protection");
    redirect_policy = relative_only;
  }

  unfoldable pub new : OidcProvider Metadata Client W → LoginFlow Metadata Client W
  unfolding with_codec
  new provider = with_codec provider id_token_codec

  unfoldable pub with_session_cookie :
      CookieSettings → LoginFlow Metadata Client W → LoginFlow Metadata Client W
  with_session_cookie settings f = record f { session_cookie = settings }

  unfoldable pub with_protection_cookie :
      CookieSettings → LoginFlow Metadata Client W → LoginFlow Metadata Client W
  with_protection_cookie settings f = record f { protection_cookie = settings }

  unfoldable pub with_redirect_policy :
      RedirectPolicy → LoginFlow Metadata Client W → LoginFlow Metadata Client W
  with_redirect_policy policy f = record f { redirect_policy = policy }

module _ {Metadata Client IdToken Value W Challenge Request : Type 0}
    (library : Library Metadata Client IdToken Value W) (clock : Clock W) (debug : Text → Text)
    (e : Encoding) (endpoint : AuthorizationEndpoint Client Challenge Request W)
    (f : LoginFlow Metadata Client W) where
  -- the challenge and the verifier, if the configuration uses PKCE
  unfoldable pub draw_pkce : Bool → M W (Option Challenge × Option Text)
  draw_pkce true = do drawn ← run endpoint.new_random_sha256; pure (some drawn.0, some drawn.1)
  draw_pkce false = pure (none, none)

  unfoldable pub request_scopes : List Text → Request → Request
  request_scopes [] request = request
  request_scopes (scope ∷ scopes) request = request_scopes scopes (endpoint.add_scope scope request)

  abbrev pub challenged : Option Challenge → Request → Request
  challenged none request = request
  challenged (some challenge) request = endpoint.set_pkce_challenge challenge request

  -- what is carried from the request to its callback
  abbrev pub protection_of : Text → Option Text → Request → ProtectionData
  protection_of destination verifier request = record {
    csrf = (endpoint.url request).1;
    nonce = (endpoint.url request).2;
    pkce_verifier = verifier;
    destination = destination;
  }

  -- the redirect of a request, whose protection data are encoded
  unfoldable pub redirect_of : Request → Text → AuthorizationRedirect
  redirect_of request value = record {
    location = (endpoint.url request).0;
    cookies = set f.protection_cookie value ∷ clear f.session_cookie ∷ [];
  }

  -- what follows the validation of the destination
  unfoldable pub authorize_valid : Text → M W AuthorizationRedirect
  unfolding draw_pkce request_scopes redirect_of
  authorize_valid destination = do
    current ← snapshot library clock f.provider
    drawn ← draw_pkce f.provider.config.use_pkce
    start ← run (endpoint.authorize_url current.state.client)
    let request = challenged drawn.0 (request_scopes f.provider.config.scopes start)
    value ← lift (encode e (protection_of destination drawn.1 request))
    pure (redirect_of request value)

  unfoldable pub authorize : Text → M W AuthorizationRedirect
  unfolding authorize_valid
  authorize destination =
      lift (validate debug f.redirect_policy destination) >> authorize_valid destination
