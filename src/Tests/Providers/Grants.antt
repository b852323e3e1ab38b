-- ===== src/Tests/Providers/Grants.antt =====
-- The theorems on `Basic` and `Bearer` credentials, and on introspected keys.
use authn_kit.Prelude.{◌*◌, ◌≡◌, ◌↔◌, ◌≢◌, inr, refl, Bool, true, false, none, some, [], ◌∷◌, ◌++◌}
use authn_kit.Text.{Text, str, text_eq, split_by, lower, starts_with, strip_prefix}
use authn_kit.Text.Utf8.{as_bytes}
use authn_kit.Map.{lookup, insert}
use authn_kit.Cookie.{second}
use authn_kit.Error.{AuthError, status}
use authn_kit.Effect.{ok, err}
use authn_kit.Outcome.{Verdict}
use authn_kit.Claims.{
  IdentityClaims, with_subject, with_expires_at, with_client_id, with_preferred_username,
  best_effort_username,
}
use authn_kit.Claims
use authn_kit.Request.{builder, with_header, header, header_all}
use authn_kit.Credential.{bearer, basic}
use authn_kit.Authenticator.{AuthContext, Authenticator, consult}
use authn_kit.Cache.{
  key_Eq, option_eq, key_eq, key, ttl, get, tick, is_refused, is_full, insert_entry, with_room,
  store_entry,
}
use authn_kit.Cache.Shared.{get_shared, insert_shared}
use authn_kit.Oidc.Claims.{flatten_claims, to_system_time, identity_from_id_token_claims}
use authn_kit.Oidc.Provider.{
  require_nonce_present, skip_nonce_check, nonce_verifier, build_client, machine_client,
  after_first, verify_id_token,
}
use authn_kit.Oidc.Tokens.{add_scopes}
use authn_kit.Mechanisms.ApiToken.{ApiTokenAuthenticator, api_token}
use authn_kit.Mechanisms.Basic.{
  BasicAuthenticator, grant_type_header, new, with_password_grant, machine_claims, remember,
  verify_response, password_exchange, password_grant, client_credentials_exchange,
  client_credentials_grant, grant, authenticate,
}
use authn_kit.Mechanisms.Basic.Decisions.{
  pair_of, Granted, authenticate-Granted, authenticate-refused,
}
use authn_kit.Mechanisms.Bearer.{bearer_authenticator, is_compact_jws}
use authn_kit.Mechanisms.Bearer
use authn_kit.Mechanisms.Bearer.Accepted.{IsBearer, authenticate-IsBearer}
use authn_kit.Mechanisms.Bearer.Jws.{is_compact_jws_iff}
use authn_kit.Mechanisms.Bearer.Order.{PresentsJws, consult-order}
use authn_kit.Tests.{Realm, office, realm_scope, try_from}
use authn_kit.Tests.Providers.{
  Site, site_cell, site_clock, config, day, library, provider, endpoint,
}

program : Unit {0}
unfolding str text_eq split_by lower starts_with strip_prefix as_bytes lookup insert status
    with_subject with_expires_at with_client_id with_preferred_username best_effort_username
    Claims.new with_header header header_all option_eq key_eq key ttl get tick is_refused is_full
    insert_entry with_room store_entry get_shared insert_shared flatten_claims to_system_time
    identity_from_id_token_claims require_nonce_present skip_nonce_check nonce_verifier build_client
    machine_client after_first verify_id_token add_scopes new with_password_grant machine_claims
    remember verify_response password_exchange password_grant client_credentials_exchange
    client_credentials_grant grant authenticate realm_scope config day library endpoint
    is_compact_jws
program = tt

abbrev passwords : BasicAuthenticator Text Text Text Site
unfolding new with_password_grant
passwords = with_password_grant true (new provider site_cell)

abbrev machines : BasicAuthenticator Text Text Text Site
unfolding new
machines = new provider site_cell

abbrev sign_in : AuthContext Realm
unfolding str lower with_header
sign_in = record {
  request = with_header (str "X-Grant-Type") (str "password") builder;
  credential = basic (str "ann") (str "pw");
  scope = office;
}

authenticate-Granted_example :
    (id : Text) × (secret : Text) × (pair_of sign_in.credential ≡ some (id, secret))
    × Granted library endpoint
        (λ t. t)
        site_clock
        try_from
        passwords
        (header sign_in.request grant_type_header)
        (realm_scope.cache_discriminator office)
        id
        secret
        day
        (str "ann")
unfolding program
authenticate-Granted_example =
    authenticate-Granted library endpoint (λ t. t) site_clock try_from passwords sign_in day
      (str "ann") refl

authenticate-refused_example :
    (e : AuthError) × (authenticate library endpoint
        (λ t. t)
        site_clock
        try_from
        machines
        sign_in
        day
      ≡ (err e, day))
    × (str "password" ≡ str "password" → status e ≡ 501)
    × (str "password" ≢ str "password" → status e ≡ 400)
unfolding program
authenticate-refused_example =
    authenticate-refused library endpoint (λ t. t) site_clock try_from machines sign_in
      (str "password") (str "ann") (str "pw") day refl refl (λ e. cc e) (λ _. refl)

abbrev keys : ApiTokenAuthenticator Text Text Site
unfolding str
keys = record {
  prefix = str "ak_";
  tokens = [];
  fallback = none;
  cache = site_cell;
  max_cache_ttl = 300 * second;
}

abbrev key_visit : AuthContext Realm
unfolding str
key_visit = record { request = builder; credential = bearer (str "ak_k1"); scope = office }

abbrev by_key : Authenticator Text Realm Site
by_key = api_token text_eq (λ t. t) site_clock try_from keys

abbrev by_bearer : Authenticator Text Realm Site
by_bearer = bearer_authenticator library site_clock try_from provider

no_jws : ¬ PresentsJws (bearer (str "ak_k1"))
unfolding is_compact_jws str split_by
no_jws j = let h : ◌≡◌ {A = Bool} false true = (is_compact_jws_iff (str "ak_k1")).1 j in cc h

consult-order_example :
    consult false key_visit ([] ++ by_key ∷ by_bearer ∷ [])
    ≡ consult false key_visit ([] ++ by_bearer ∷ by_key ∷ [])
unfolding key_visit
consult-order_example =
    consult-order library site_clock try_from provider text_eq (λ t. t) keys false key_visit [] []
      (inr no_jws)

-- a token of three segments, which the provider knows
abbrev jws_visit : AuthContext Realm
jws_visit = record { request = builder; credential = bearer (str "a.b.c"); scope = office }

authenticate-IsBearer_example :
    ((Bearer.authenticate library site_clock try_from provider jws_visit day).0
      ≡ ok (Verdict.authenticated (str "a.b.c")))
    ↔ IsBearer library site_clock try_from provider jws_visit day (str "a.b.c")
authenticate-IsBearer_example =
    authenticate-IsBearer library site_clock try_from provider jws_visit day (str "a.b.c")
