-- ===== src/Tests/Providers/Returns.antt =====
-- A login, and a request of the next evening that carries the cookie of the session.
use authn_kit.Prelude.{◌≡◌, ◌↔◌, refl, some, [], ◌∷◌}
use authn_kit.Text.{Text, str, text_eq, upper}
use authn_kit.Text.Splitting.{join}
use authn_kit.Map.{lookup, insert, text_Eq}
use authn_kit.Effect.{ok}
use authn_kit.Error.{status}
use authn_kit.Request.{builder, with_method, with_path, with_cookie, cookie}
use authn_kit.Credential
use authn_kit.Credential.{is_none}
use authn_kit.Oidc.Claims.{flatten_claims}
use authn_kit.Outcome.{Verdict}
use authn_kit.Authenticator.{AuthContext}
use authn_kit.Claims.{with_expires_at, with_subject}
use authn_kit.Oidc.Claims.{to_system_time, identity_from_id_token_claims}
use authn_kit.Oidc.Error.{is_possibly_stale_keys}
use authn_kit.Oidc.Provider.{
  require_nonce_present, nonce_verifier, build_client, fetch_state, is_fresh, store,
  fetch_and_store, refresh_locked, refresh, after_first, verify_id_token,
}
use authn_kit.Oidc.Session.{id_token_codec, session, protection, set, clear}
use authn_kit.Oidc.Login.{
  ProtectionData, success, LoginComplete, LoginFlow, decode, with_codec, with_session_cookie,
}
use authn_kit.Oidc.Login.Complete.{
  completed, finish, read_response, exchange_code, check_state, complete,
}
use authn_kit.Oidc.Login.Completion.{Exchanged}
use authn_kit.Mechanisms.Session.{
  SessionAuthenticator, destination, challenge, after_verification, after_decoding, authenticate,
}
use authn_kit.Mechanisms
use authn_kit.Mechanisms.Session.Continuity.{IsUsable, authenticate-complete}
use authn_kit.Tests.{Realm, office, realm_scope, try_from}
use authn_kit.Tests.Providers.{
  Site, site_clock, config, day, eve, claims_of, library, provider, endpoint, authorization,
  encoding,
}

program : Unit {0}
unfolding str text_eq upper join lookup insert status with_method with_path with_cookie cookie
    is_none is_possibly_stale_keys flatten_claims to_system_time identity_from_id_token_claims
    require_nonce_present nonce_verifier build_client fetch_state is_fresh store fetch_and_store
    refresh_locked refresh after_first verify_id_token id_token_codec session protection set clear
    decode with_codec with_session_cookie completed finish read_response exchange_code check_state
    complete Mechanisms.Session.with_codec challenge after_verification after_decoding authenticate
    realm_scope day eve library config endpoint authorization encoding with_expires_at with_subject
program = tt

-- the login of the scope `office`
abbrev flow : LoginFlow Text Text Site
unfolding program
flow = with_session_cookie (session (str "office")) (with_codec provider id_token_codec)

abbrev sessions : SessionAuthenticator Text Text Site
unfolding program
sessions = Mechanisms.Session.with_codec provider id_token_codec

abbrev done : LoginComplete Text
unfolding program
done =
    completed library endpoint site_clock encoding flow (str "/desk")
      (identity_from_id_token_claims (claims_of (str "ann"))) (str "ann")

abbrev visit : AuthContext Realm
unfolding program
visit = record {
  request =
      with_cookie (str "office") (str "ann")
        (with_path (str "/") (with_method (str "put") builder));
  credential = Credential.none;
  scope = office;
}

authenticate-complete_example :
    (code : Text) × (p : ProtectionData) × (x : Exchanged library endpoint site_clock encoding flow
      p code day done)
    × (((authenticate library site_clock
            (λ t. t)
            encoding
            authorization
            try_from
            sessions
            visit
            eve).0
          ≡ ok (Verdict.authenticated (str "ann")))
        ↔ IsUsable library endpoint site_clock encoding flow try_from sessions x.token eve
            (str "ann"))
unfolding program
authenticate-complete_example =
    authenticate-complete library endpoint site_clock encoding flow (λ t. t) authorization try_from
      sessions (success (str "ann") (str "state"))
      (some (join 0 (str "tubuf" ∷ str "o" ∷ str "0eftl" ∷ str "wfsjgjfs" ∷ []))) day done
      (set flow.session_cookie (str "ann")) (clear flow.protection_cookie ∷ []) visit eve
      (str "ann") refl refl refl refl refl refl refl

returning_authenticated :
    (authenticate library site_clock (λ t. t) encoding authorization try_from sessions visit eve).0
    ≡ ok (Verdict.authenticated (str "ann"))
unfolding program
returning_authenticated = refl
