-- ===== src/Mechanisms/ApiToken.antt =====
-- src/mechanisms/api_token.rs: `Authorization: Bearer <prefix><key>`. `ct_eq` is the comparison of
-- two byte slices by `subtle`, `hash` is `blake3::hash`, and `Value` is `serde_json::Value`.
pub mod Static
pub mod Decisions
pub mod Fallback
pub mod Sources
pub mod Lasting
use authn_kit.Prelude.{
  ℕ, ◌-◌, ◌*◌, min, Bool, true, false, ◌&&◌, Option, none, some, get_or, List, [], ◌∷◌, ◌++◌, ◌⊎◌,
  inl, inr, ◌==◌, leb, if◌then◌else◌, is_empty, any, find, length,
}
use authn_kit.Text.{Text, str, text_eq, trim, strip_prefix}
use authn_kit.Text.Utf8.{as_bytes}
use authn_kit.Cookie.{second}
use authn_kit.Error.{invalid_credential, internal}
use authn_kit.Effect.{Result, ok, M, pure, fail, run, ◌>>=◌, ◌>>◌, Cell, Clock}
use authn_kit.Claims.{
  IdentityClaims, static_token, with_subject, with_preferred_username, with_email,
}
use authn_kit.Claims
use authn_kit.Credential.{Credential, bearer}
use authn_kit.Scope.{AuthScope}
use authn_kit.Outcome.{Verdict}
use authn_kit.Cache.{CacheConfig, CredentialCache, CacheKey, key}
use authn_kit.Cache
use authn_kit.Cache.Shared.{get_shared, insert_shared}
use authn_kit.Mechanisms.Identity.{user_of, verdict_of}
use authn_kit.Authenticator.{Authenticator, AuthContext}

abbrev pub default_max_cache_ttl : ℕ
default_max_cache_ttl = 300 * second

-- The trait `TokenValidator`.
pub record TokenValidator (Value W : Type 0) : Type 0 where
  pub name : Text
  pub validate : Text → Option Text → M W (IdentityClaims Value)

pub data StaticTokenError : Type 0 where
  malformed : Text → StaticTokenError
  empty_prefix : StaticTokenError
  empty_token : Text → StaticTokenError

pub record StaticTokenSpec : Type 0 where
  pub token : Text
  pub principal : Text
  pub email : Option Text
  pub scopes : Option (List Text)

pub record StaticToken (Value : Type 0) : Type 0 where
  pub secret : Text
  pub claims : IdentityClaims Value
  pub scopes : Option (List Text)

pub record ApiTokenAuthenticator (U Value W : Type 0) : Type 0 where
  pub prefix : Text
  pub tokens : List (StaticToken Value)
  pub fallback : Option (TokenValidator Value W)
  pub cache : Cell W (CredentialCache U)
  pub max_cache_ttl : ℕ

abbrev pub permitted : Option (List Text) → Option Text → Bool
permitted none scope = true
permitted (some allowed) (some scope) = any (λ listed. text_eq listed scope) allowed
permitted (some allowed) none = false

module _ {Value : Type 0} where
  unfoldable pub permits : StaticToken Value → Option Text → Bool
  permits t scope = permitted t.scopes scope

  unfoldable pub matches : (List ℕ → List ℕ → Bool) → StaticToken Value → Text → Bool
  matches ct_eq t candidate =
      let expected = as_bytes t.secret in
      let given = as_bytes candidate in length expected == length given && ct_eq expected given

  -- the closure of `new`
  unfoldable pub token_of_spec : StaticTokenSpec → StaticTokenError ⊎ StaticToken Value
  token_of_spec spec =
      if is_empty spec.token
      then inl (empty_token spec.principal)
      else inr (record {
        secret = spec.token;
        claims = with_email (get_or spec.email spec.principal) (
            with_preferred_username spec.principal
              (with_subject spec.principal (Claims.new static_token)));
        scopes = spec.scopes;
      })

  abbrev cons_token :
      StaticToken Value
      → StaticTokenError ⊎ List (StaticToken Value)
      → StaticTokenError ⊎ List (StaticToken Value)
  cons_token t (inl e) = inl e
  cons_token t (inr ts) = inr (t ∷ ts)

  -- `map(..).collect::<Result<Vec<_>, _>>()`: the first error, or every token
  unfoldable pub tokens_of_specs :
      List StaticTokenSpec → StaticTokenError ⊎ List (StaticToken Value)
  unfolding token_of_spec
  tokens_of_specs [] = inr []
  tokens_of_specs (spec ∷ specs) = elim (token_of_spec spec) [
    | inl e ↦ inl e
    | inr t ↦ cons_token t (tokens_of_specs specs)
  ]

module _ {U Value W : Type 0} where
  abbrev with_tokens :
      Cell W (CredentialCache U)
      → Text
      → StaticTokenError ⊎ List (StaticToken Value)
      → StaticTokenError ⊎ ApiTokenAuthenticator U Value W
  with_tokens cell prefix (inl e) = inl e
  with_tokens cell prefix (inr tokens) = inr (record {
    prefix = prefix;
    tokens = tokens;
    fallback = none;
    cache = cell;
    max_cache_ttl = default_max_cache_ttl;
  })

  -- `cell` is the place of the new authenticator's cache, which starts as `CredentialCache::default()`.
  unfoldable pub new :
      Cell W (CredentialCache U)
      → Text
      → List StaticTokenSpec
      → StaticTokenError ⊎ ApiTokenAuthenticator U Value W
  unfolding tokens_of_specs
  new cell prefix specs =
      if is_empty prefix then inl empty_prefix else with_tokens cell prefix (tokens_of_specs specs)

  unfoldable pub with_fallback :
      TokenValidator Value W → ApiTokenAuthenticator U Value W → ApiTokenAuthenticator U Value W
  with_fallback validator a = record a { fallback = some validator }

  -- The cache is replaced by a new one.
  unfoldable pub with_cache_config : CacheConfig → ApiTokenAuthenticator U Value W → W → W
  with_cache_config config a = a.cache.store (Cache.new config)

  unfoldable pub with_max_cache_ttl :
      ℕ → ApiTokenAuthenticator U Value W → ApiTokenAuthenticator U Value W
  with_max_cache_ttl limit a = record a { max_cache_ttl = limit }

  -- `parse` is `serde_json::from_str`; a refusal is its message.
  unfoldable pub from_json :
      (Text → Text ⊎ List StaticTokenSpec)
      → Cell W (CredentialCache U)
      → Text
      → Text
      → StaticTokenError ⊎ ApiTokenAuthenticator U Value W
  unfolding new
  from_json parse cell prefix json =
      if is_empty (trim json) then new cell prefix [] else elim (parse (trim json)) [
        | inl e ↦ inl (malformed e)
        | inr specs ↦ new cell prefix specs
      ]

  unfoldable pub token_count : ApiTokenAuthenticator U Value W → ℕ
  token_count a = length a.tokens

  -- the time until a `SystemTime`, with the cap; nothing if it has passed
  unfoldable pub remaining : ApiTokenAuthenticator U Value W → ℕ → ℕ → Option ℕ
  remaining a expires_at now =
      if leb now expires_at then some (min (expires_at - now) a.max_cache_ttl) else none

  unfoldable pub cache_ttl : Clock W → ApiTokenAuthenticator U Value W → Option ℕ → M W (Option ℕ)
  unfolding remaining
  cache_ttl clock a none = pure none
  cache_ttl clock a (some expires_at) = do
    now ← run clock.system_now
    pure (remaining a expires_at now)

-- the static tokens: the first that permits the scope and matches the key
unfoldable pub matched :
    {Value : Type 0}
    → (List ℕ → List ℕ → Bool)
    → List (StaticToken Value)
    → Option Text
    → Text
    → Option (StaticToken Value)
unfolding permits matches
matched ct_eq tokens scope presented =
    find (λ t. permits t scope && matches ct_eq t presented) tokens

module _ {U Value W : Type 0} (ct_eq : List ℕ → List ℕ → Bool) (hash : Text → List ℕ)
    (clock : Clock W) (try_from : IdentityClaims Value → Text ⊎ U)
    (a : ApiTokenAuthenticator U Value W) where
  -- what follows a miss of the static tokens and of the cache
  unfoldable pub validated :
      TokenValidator Value W → Option Text → Text → CacheKey → M W (Verdict U)
  validated validator scope presented cache_key = do
    claims ← validator.validate presented scope
    ttl ← cache_ttl clock a claims.expires_at
    user ← user_of (str "api token principal could not be converted") (try_from claims)
    insert_shared clock a.cache cache_key user ttl
    pure (Verdict.authenticated user)

  unfoldable pub with_validator : TokenValidator Value W → Option Text → Text → M W (Verdict U)
  with_validator validator scope presented =
      let cache_key = key hash scope validator.name [] presented in
      do
        cached ← get_shared clock a.cache cache_key
        elim cached [
          | some user ↦ pure (Verdict.authenticated user)
          | none ↦ validated validator scope presented cache_key
        ]

  -- what follows the prefix
  unfoldable pub authenticate_key : Option Text → Text → M W (Verdict U)
  authenticate_key scope presented = elim (matched ct_eq a.tokens scope presented) [
    | some t ↦ verdict_of (str "static token principal could not be converted") (try_from t.claims)
    | none ↦ elim a.fallback [
      | none ↦
          fail (
            invalid_credential (str "no static token matches the presented api key for this scope"))
      | some validator ↦ with_validator validator scope presented
    ]
  ]

  module _ {S : Type 0} ⦃s : AuthScope S⦄ where
    unfoldable pub authenticate : AuthContext S → M W (Verdict U)
    authenticate ctx = elim ctx.credential [
      | bearer token ↦ elim (strip_prefix token a.prefix) [
        | none ↦ pure Verdict.not_applicable
        | some presented ↦ authenticate_key (s.cache_discriminator ctx.scope) presented
      ]
      | _ ↦ pure Verdict.not_applicable
    ]

    unfoldable pub api_token : Authenticator U S W
    unfolding authenticate
    api_token = record { name = str "static-token"; authenticate = authenticate }
