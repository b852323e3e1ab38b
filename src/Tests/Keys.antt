-- ===== src/Tests/Keys.antt =====
-- The theorems on api tokens, at an authenticator with one static token and a validator.
use authn_kit.Prelude.{ℕ, ◌+◌, ◌*◌, ◌≡◌, inl, refl, none, some, [], ◌∷◌}
use authn_kit.Text.{Text, str, text_eq, strip_prefix}
use authn_kit.Text.Utf8.{as_bytes}
use authn_kit.Cookie.{second}
use authn_kit.Map.{lookup, insert}
use authn_kit.Error.{invalid_credential}
use authn_kit.Effect.{ok, err}
use authn_kit.Request.{builder}
use authn_kit.Claims.{
  IdentityClaims, introspection, with_subject, with_expires_at, with_preferred_username, with_email,
}
use authn_kit.Claims
use authn_kit.Credential.{bearer, basic}
use authn_kit.Debug.{debug_credential, debug_api_token, debug_validator}
use authn_kit.Debug.Secrets.{debug-erased}
use authn_kit.Mechanisms.Introspection.{IntrospectionValidator}
use authn_kit.Outcome.{Verdict}
use authn_kit.Authenticator.{AuthContext}
use authn_kit.Cache.{
  CacheKey, key_Eq, option_eq, key_eq, key, ttl, get, tick, is_refused, is_full, insert_entry,
  with_room, store_entry,
}
use authn_kit.Cache.Shared.{get_shared, insert_shared}
use authn_kit.Mechanisms.ApiToken.{
  StaticToken, TokenValidator, ApiTokenAuthenticator, authenticate, authenticate_key, matched,
  matches, permits, remaining, cache_ttl, validated, with_validator,
}
use authn_kit.Mechanisms.ApiToken.Decisions.{authenticate-static}
use authn_kit.Mechanisms.ApiToken.Lasting.{Lasts, timed_in, Kept, validated-Kept}
use authn_kit.Mechanisms.ApiToken.Sources.{HasKey, authenticate-HasKey}
use authn_kit.Tests.{
  Realm, office, realm_scope, World, morning, cell, clock, try_from, text_eq-IsConstantTimeEq,
}

program : Unit {0}
unfolding str text_eq strip_prefix as_bytes lookup insert option_eq key_eq key ttl get tick
    is_refused is_full insert_entry with_room store_entry get_shared insert_shared matched matches
    permits remaining cache_ttl validated with_validator authenticate_key authenticate Claims.new
    with_subject realm_scope
program = tt

abbrev deploy : StaticToken Text
unfolding str Claims.new with_subject
deploy = record {
  secret = str "k1";
  claims = with_subject (str "ci") (Claims.new introspection);
  scopes = some (str "office" ∷ []);
}

-- It accepts every key but the empty one, as the key's own subject.
abbrev validator : TokenValidator Text World
unfolding str Claims.new with_subject
validator = record {
  name = str "keys";
  validate = λ presented scope w. elim presented [
    | [] ↦ (err (invalid_credential []), w)
    | c ∷ s ↦ (ok (with_subject (c ∷ s) (Claims.new introspection)), w)
  ];
}

abbrev static_only : ApiTokenAuthenticator Text Text World
unfolding str
static_only = record {
  prefix = str "ak_";
  tokens = deploy ∷ [];
  fallback = none;
  cache = cell;
  max_cache_ttl = 300 * second;
}

abbrev checked : ApiTokenAuthenticator Text Text World
checked = record static_only { fallback = some validator }

abbrev context : Realm → Text → AuthContext Realm
context realm token = record { request = builder; credential = bearer token; scope = realm }

authenticate-static_example :
    authenticate text_eq (λ t. t) clock try_from static_only (context office (str "ak_k1")) morning
    ≡ (ok (Verdict.authenticated (str "ci")), morning)
unfolding program
authenticate-static_example =
    authenticate-static text_eq (λ t. t) clock try_from static_only text_eq-IsConstantTimeEq
      (context office (str "ak_k1")) [] [] deploy (str "k1") morning refl refl tt (inl refl, refl)

-- It says of every key when it expires.
abbrev dated : TokenValidator Text World
unfolding str Claims.new with_subject
dated = record {
  name = str "dated";
  validate = λ presented scope w. (
    ok (record (with_subject presented (Claims.new introspection)) {
      expires_at = some (5 + 60 * second);
    }),
    w,
  );
}

abbrev zed_key : CacheKey
unfolding key str
zed_key = key (λ t. t) (some (str "office")) (str "dated") [] (str "zed")

validated-Kept_example :
    (claims : IdentityClaims Text) × (n : ℕ) × ((dated.validate
        (str "zed")
        (some (str "office"))
        morning).0
      ≡ ok claims)
    × (let before = timed_in clock checked claims.expires_at morning in
        Lasts claims.expires_at 5 checked.max_cache_ttl (cell.load before).config n
        × Kept clock checked text_eq
            (λ t. t)
            try_from
            dated
            (some (str "office"))
            (str "zed")
            zed_key
            before
            (validated text_eq
              (λ t. t)
              clock
              try_from
              checked
              dated
              (some (str "office"))
              (str "zed")
              zed_key
              morning).1
            (str "zed")
            n)
unfolding program static_only dated morning zed_key
validated-Kept_example =
    validated-Kept clock checked text_eq (λ t. t) try_from dated (some (str "office")) (str "zed")
      zed_key (λ c w. refl) morning (str "zed") refl

-- A key that the validator accepts.
authenticate-HasKey_example :
    HasKey text_eq
      (λ t. t)
      clock
      try_from
      checked
      text_eq-IsConstantTimeEq
      (context office (str "ak_zed"))
      morning
      (str "zed")
unfolding program static_only validator morning
authenticate-HasKey_example =
    authenticate-HasKey text_eq (λ t. t) clock try_from checked text_eq-IsConstantTimeEq
      (context office (str "ak_zed")) morning (str "zed") refl

abbrev introspector : IntrospectionValidator
introspector = record { endpoint = str "https://i/introspect"; auth_header = str "Basic eA" }

debug-erased_example :
    (debug_credential (λ t. t) (basic (str "ci") (str "pw"))
      ≡ debug_credential (λ t. t) (basic (str "ci") []))
    × (debug_api_token (λ t. t) checked
        ≡ debug_api_token (λ t. t) (record checked { tokens = record deploy { secret = [] } ∷ [] }))
    × (debug_validator (λ t. t) introspector
        ≡ debug_validator (λ t. t) (record introspector { auth_header = [] }))
unfolding static_only
debug-erased_example = debug-erased (λ t. t) (basic (str "ci") (str "pw")) checked introspector

shown :
    debug_credential (λ t. t) (basic (str "ci") (str "pw"))
    ≡ str "Basic { id: ci, secret: <redacted> }"
unfolding str debug_credential
shown = refl
