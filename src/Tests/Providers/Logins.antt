-- ===== src/Tests/Providers/Logins.antt =====
-- The theorems on the provider, the login flow and sessions, at a login that begins at `/desk`.
use authn_kit.Prelude.{◌≡◌, ◌↔◌, ◌⊎◌, refl, false, none, some, [], ◌∷◌, All}
use authn_kit.Text.{
  Text, str, text_eq, starts_with, strip_prefix, is_control, trim_end_matches, split_by, upper,
}
use authn_kit.Text.Splitting.{join}
use authn_kit.Map.{lookup, insert}
use authn_kit.Cookie.{CookieDirective}
use authn_kit.Error.{status}
use authn_kit.Effect.{ok}
use authn_kit.Claims.{IdentityClaims, with_expires_at, with_subject}
use authn_kit.Request.{
  AuthRequest, builder, with_method, with_path, with_query, with_cookie, cookie,
}
use authn_kit.Credential.{Credential, is_none}
use authn_kit.Outcome.{Verdict}
use authn_kit.Authenticator.{AuthContext}
use authn_kit.Oidc.Error.{is_possibly_stale_keys}
use authn_kit.Oidc.Claims.{flatten_claims, to_system_time, identity_from_id_token_claims}
use authn_kit.Oidc.Provider.{
  present, require_nonce_present, nonce_verifier, build_client, fetch_state, is_fresh, store,
  fetch_and_store, refresh_locked, refresh, after_first, verify_id_token,
}
use authn_kit.Oidc.Provider.Verification.{Verified, verify_id_token-Verified}
use authn_kit.Oidc.Session.{id_token_codec, session, protection, set, clear}
use authn_kit.Oidc.Login.{
  encode, decode, LoginFlow, LoginComplete, AuthorizationRedirect, CallbackParams, success,
  with_codec, draw_pkce, request_scopes, redirect_of, authorize_valid, authorize,
}
use authn_kit.Oidc.Login.Redirect.{allowlist, is_within_origin, validate_absolute, validate}
use authn_kit.Oidc.Login.Destinations.{IsPath, IsListed, validate_iff}
use authn_kit.Oidc.Login.Callback.{params_of, from_query}
use authn_kit.Oidc.Login.Complete.{
  completed, finish, read_response, exchange_code, check_state, complete,
}
use authn_kit.Oidc.Login.Completion.{Completed, complete-Completed}
use authn_kit.Oidc.Login.Protection.{Begun, complete-authorize}
use authn_kit.Mechanisms.Session.{
  SessionAuthenticator, destination, with_login_redirect, challenge, after_verification,
  after_decoding, authenticate,
}
use authn_kit.Mechanisms
use authn_kit.Mechanisms.Session.Challenges.{HasSession, authenticate-session}
use authn_kit.Mechanisms.Session.Navigation.{authenticate-not_get}
use authn_kit.Mechanisms.Session.Returning.{Back, authenticate-returns}
use authn_kit.Effect.Redirects.{redirects}
use authn_kit.Tests.{Realm, office, realm_scope, try_from}
use authn_kit.Tests.Providers.{
  Site, site_clock, config, day, eve, claims_of, library, provider, endpoint, authorization,
  encoding, encoding-IsFaithful,
}

program : Unit {0}
unfolding str text_eq starts_with strip_prefix is_control trim_end_matches split_by upper join
    lookup insert status with_method with_path with_query with_cookie cookie is_none
    is_possibly_stale_keys flatten_claims to_system_time identity_from_id_token_claims
    require_nonce_present nonce_verifier build_client fetch_state is_fresh store fetch_and_store
    refresh_locked refresh after_first verify_id_token id_token_codec session protection set clear
    encode decode with_codec draw_pkce request_scopes redirect_of authorize_valid authorize
    is_within_origin validate_absolute validate params_of from_query completed finish read_response
    exchange_code check_state complete Mechanisms.Session.with_codec with_login_redirect destination
    challenge after_verification after_decoding authenticate realm_scope day eve library config
    endpoint authorization encoding with_expires_at with_subject
program = tt

abbrev identity : Text → IdentityClaims Text
identity token = identity_from_id_token_claims (claims_of token)

-- The keys of the evening are stale, so the token is accepted under those that a refresh fetches.
verify_id_token-Verified_example :
    ((verify_id_token library site_clock provider (str "ann") present eve).0
      ≡ ok (identity (str "ann")))
    ↔ Verified library site_clock provider (str "ann") present eve (identity (str "ann"))
verify_id_token-Verified_example =
    verify_id_token-Verified library site_clock provider (str "ann") present eve
      (identity (str "ann"))

verified_again :
    (verify_id_token library site_clock provider (str "ann") present eve).0
    ≡ ok (identity (str "ann"))
unfolding program
verified_again = refl

abbrev flow : LoginFlow Text Text Site
unfolding id_token_codec with_codec
flow = with_codec provider id_token_codec

abbrev desk : Text
unfolding str
desk = str "/desk"

abbrev begun : AuthorizationRedirect
unfolding authorization encoding redirect_of encode
begun =
    redirect_of library site_clock (λ t. t) encoding authorization flow (str "https://i/auth")
      (encoding.encode64 (join 0 (str "tubuf" ∷ str "o" ∷ str "0eftl" ∷ str "wfsjgjfs" ∷ [])))

abbrev protection_cookie : CookieDirective
protection_cookie =
    set flow.protection_cookie (join 0 (str "tubuf" ∷ str "o" ∷ str "0eftl" ∷ str "wfsjgjfs" ∷ []))

abbrev done : LoginComplete Text
done = completed library endpoint site_clock encoding flow desk (identity (str "ann")) (str "ann")

abbrev callback : CallbackParams
callback = success (str "ann") (str "state")

complete-Completed_example :
    ((complete library endpoint site_clock encoding flow callback
        (some protection_cookie.value)
        day).0
      ≡ ok done)
    ↔ Completed library endpoint site_clock encoding flow callback
        (some protection_cookie.value)
        day
        done
complete-Completed_example =
    complete-Completed library endpoint site_clock encoding flow callback
      (some protection_cookie.value) day done

complete-authorize_example :
    (done.redirect_to ≡ desk)
    × All (λ x. is_control x ≡ false) desk
    × (IsPath desk ⊎ IsListed flow.redirect_policy desk)
    × ((code : Text) × (b : Begun library site_clock
          (λ t. t)
          encoding
          authorization
          flow
          desk
          begun)
        × (callback ≡ success code (authorization.url b.request).1))
unfolding program
complete-authorize_example =
    complete-authorize library site_clock (λ t. t) encoding authorization flow endpoint
      encoding-IsFaithful desk day day begun protection_cookie (clear flow.session_cookie ∷ [])
      callback done refl refl refl

validate_iff_example :
    (validate (λ t. t) (allowlist (str "https://a/" ∷ [])) (str "https://a?x") ≡ ok tt) ↔ (
      All (λ c. is_control c ≡ false) (str "https://a?x")
      × (IsPath (str "https://a?x")
          ⊎ IsListed (allowlist (str "https://a/" ∷ [])) (str "https://a?x")))
validate_iff_example = validate_iff (λ t. t) (allowlist (str "https://a/" ∷ [])) (str "https://a?x")

abbrev sessions : SessionAuthenticator Text Text Site
unfolding Mechanisms.Session.with_codec with_login_redirect
sessions = with_login_redirect flow (Mechanisms.Session.with_codec provider id_token_codec)

abbrev navigation : AuthRequest
unfolding with_method with_path
navigation = with_path desk (with_method (str "get") builder)

abbrev visit : AuthRequest → AuthContext Realm
visit request = record { request = request; credential = Credential.none; scope = office }

abbrev returning : AuthRequest
unfolding with_cookie
returning = with_cookie (str "office") (str "ann") navigation

abbrev submission : AuthRequest
unfolding with_method
submission = with_method (str "post") returning

authenticate-session_example :
    ((authenticate library site_clock
        (λ t. t)
        encoding
        authorization
        try_from
        sessions
        (visit returning)
        day).0
      ≡ ok (Verdict.authenticated (str "ann")))
    ↔ HasSession library site_clock
        (λ t. t)
        encoding
        authorization
        try_from
        sessions
        (visit returning)
        day
        (str "ann")
authenticate-session_example =
    authenticate-session library site_clock (λ t. t) encoding authorization try_from sessions
      (visit returning) day (str "ann")

returning_authenticated :
    (authenticate library site_clock
      (λ t. t)
      encoding
      authorization
      try_from
      sessions
      (visit returning)
      day).0
    ≡ ok (Verdict.authenticated (str "ann"))
unfolding program
returning_authenticated = refl

authenticate-not_get_example :
    authenticate library site_clock
      (λ t. t)
      encoding
      authorization
      try_from
      sessions
      (visit submission)
      day
    ≡ authenticate library site_clock
        (λ t. t)
        encoding
        authorization
        try_from
        (record sessions { login = none })
        (visit submission)
        day
unfolding program
authenticate-not_get_example =
    authenticate-not_get library site_clock (λ t. t) encoding authorization try_from sessions
      (visit submission) day (λ e. cc e)

plain : (raw : Text) → redirects (sessions.codec.decode raw) ≡ false
unfolding program
plain [] = refl
plain (c ∷ raw) = refl

-- A navigation with a query, and the cookie of the login that it is sent into.
abbrev search : AuthRequest
unfolding with_query
search = with_query (str "a=1") navigation

abbrev search_cookie : CookieDirective
search_cookie =
    set flow.protection_cookie
      (join 0 (str "tubuf" ∷ str "o" ∷ str "0eftl@b>2" ∷ str "wfsjgjfs" ∷ []))

abbrev found : LoginComplete Text
found =
    completed library endpoint site_clock encoding flow (str "/desk?a=1") (identity (str "ann"))
      (str "ann")

authenticate-returns_example : (search.method ≡ str "GET") × Back search found.redirect_to
unfolding program
authenticate-returns_example =
    authenticate-returns library site_clock (λ t. t) encoding authorization try_from sessions
      (str "https://i/auth") (search_cookie ∷ clear flow.session_cookie ∷ []) (visit search)
      endpoint encoding-IsFaithful flow day day search_cookie (clear flow.session_cookie ∷ [])
      callback found plain refl refl refl refl
