-- ===== src/Debug.antt =====
-- What `{:?}` shows of the values that hold secrets: the `Debug` of src/credential.rs, src/gateway.rs
-- and src/mechanisms, on one line. `quoted` is the `Debug` of a `str`.
pub mod Secrets
use authn_kit.Prelude.{ℕ, ◌++◌, Bool, true, false, Option, none, some, List, [], ◌∷◌, map, length}
use mathlib.Core.Option
use authn_kit.Text.{Text, str, to_decimal}
use authn_kit.Effect.{M, pure, read, ◌>>=◌}
use authn_kit.Credential.{Credential, bearer, basic, other, malformed}
use authn_kit.Gateway.{AuthGateway, authenticator_names}
use authn_kit.Cache.{len}
use authn_kit.Mechanisms.ApiToken.{ApiTokenAuthenticator, token_count}
use authn_kit.Mechanisms.Basic.{BasicAuthenticator}
use authn_kit.Mechanisms.Disabled.{DisabledAuthenticator}
use authn_kit.Mechanisms.Introspection.{IntrospectionValidator}

-- texts with a comma and a space between any two
abbrev separated : List Text → Text
separated [] = []
separated (s ∷ []) = s
separated (s ∷ t ∷ rest) = s ++ str ", " ++ separated (t ∷ rest)

-- `field(name, value)`, where the value is shown already
abbrev pub field : Text × Text → Text
field (name, value) = name ++ str ": " ++ value

-- `debug_struct(name)` with these fields, and `finish()`
unfoldable pub finish : Text → List (Text × Text) → Text
finish name fields = name ++ str " { " ++ separated (map field fields) ++ str " }"

-- or `finish_non_exhaustive()`
unfoldable pub finish_non_exhaustive : Text → List (Text × Text) → Text
finish_non_exhaustive name fields =
    name ++ str " { " ++ separated (map field fields) ++ str ", .. }"

abbrev pub debug_bool : Bool → Text
debug_bool true = str "true"
debug_bool false = str "false"

module _ (quoted : Text → Text) where
  abbrev pub debug_option : Option Text → Text
  debug_option none = str "None"
  debug_option (some s) = str "Some(" ++ quoted s ++ str ")"

  unfoldable pub debug_credential : Credential → Text
  debug_credential (bearer token) = str "Bearer(<redacted>)"
  debug_credential (basic id secret) =
      str "Basic { id: " ++ quoted id ++ str ", secret: <redacted> }"
  debug_credential (other scheme value) =
      str "Other { scheme: " ++ quoted scheme ++ str ", value: <redacted> }"
  debug_credential (malformed scheme detail) =
      str "Malformed { scheme: " ++ quoted scheme ++ str ", detail: " ++ quoted detail ++ str " }"
  debug_credential Credential.none = str "None"

  unfoldable pub debug_gateway : {U S W : Type 0} → AuthGateway U S W → Text
  unfolding authenticator_names finish_non_exhaustive
  debug_gateway g = finish_non_exhaustive (str "AuthGateway") (
      (str "authenticators", str "[" ++ separated (map quoted (authenticator_names g)) ++ str "]")
      ∷ [])

  unfoldable pub debug_api_token : {U Value W : Type 0} → ApiTokenAuthenticator U Value W → Text
  unfolding token_count finish
  debug_api_token a = finish (str "ApiTokenAuthenticator") (
      (str "prefix", quoted a.prefix)
      ∷ (str "static_tokens", to_decimal (token_count a))
      ∷ (str "fallback", debug_option (Option.map (λ v. v.name) a.fallback))
      ∷ [])

  unfoldable pub debug_disabled : {Value : Type 0} → DisabledAuthenticator Value → Text
  unfolding finish
  debug_disabled d =
      finish (str "DisabledAuthenticator") ((str "subject", debug_option d.claims.subject) ∷ [])

  unfoldable pub debug_validator : IntrospectionValidator → Text
  unfolding finish_non_exhaustive
  debug_validator v =
      finish_non_exhaustive (str "IntrospectionValidator")
        ((str "endpoint", quoted v.endpoint) ∷ [])

-- It counts what the cache holds at that time.
unfoldable pub debug_basic :
    {Metadata Client U W : Type 0} → BasicAuthenticator Metadata Client U W → M W Text
unfolding len finish
debug_basic a = do
  c ← read a.cache
  pure (
      finish (str "BasicAuthenticator") (
        (str "password_grant", debug_bool a.allow_password_grant)
        ∷ (str "cached", to_decimal (len c))
        ∷ []))
