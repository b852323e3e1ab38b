-- ===== src/Mechanisms/Introspection.antt =====
-- src/mechanisms/introspection.rs: api keys that an RFC 7662 endpoint validates. The HTTP client is
-- a parameter: the outcome of a request, of its status and of reading its body as JSON. So are the
-- accessors of `serde_json::Value`.
pub mod Responses
pub mod Validity
use authn_kit.Prelude.{
  ℕ, ◌*◌, Bool, true, false, ◌++◌, ◌⊎◌, inl, inr, Option, none, some, List, ◌∷◌, if◌then◌else◌, leb,
}
use mathlib.Core.Option
use authn_kit.Text.{Text, str}
use authn_kit.Cookie.{second}
use authn_kit.Map.{lookup, text_Eq}
use authn_kit.Error.{invalid_credential, upstream, internal}
use authn_kit.Effect.{Result, ok, err, panic, M, pure, fail, lift, run, ◌>>=◌}
use authn_kit.Cache.{instant_limit}
use authn_kit.Claims.{IdentityClaims, introspection, new, best_effort_username}
use authn_kit.Mechanisms.ApiToken.{TokenValidator}

pub record Json (Value : Type 0) : Type 0 where
  pub as_object : Value → Option (List (Text × Value))
  pub as_bool : Value → Option Bool
  pub as_str : Value → Option Text
  pub as_u64 : Value → Option ℕ

-- `reqwest`: what a response is, read in the world.
pub record Http (Response Value W : Type 0) : Type 0 where
  pub post_form : Text → Text → List (Text × Text) → W → (Text ⊎ Response) × W
  pub is_success : Response → Bool
  pub status : Response → Text
  pub json : Response → W → (Text ⊎ Value) × W

pub record IntrospectionValidator : Type 0 where
  pub endpoint : Text
  pub auth_header : Text

-- The client that sends the requests is a parameter of `validate`.
unfoldable pub with_client : Text → Text → IntrospectionValidator
with_client endpoint auth_header = record { endpoint = endpoint; auth_header = auth_header }

-- The outcome of `reqwest::ClientBuilder::build` is a parameter, with an error's message.
unfoldable pub new_validator : Text ⊎ Unit {0} → Text → Text → Result IntrospectionValidator
unfolding with_client
new_validator (inl e) endpoint auth_header =
    err (internal (str "could not build http client: " ++ e))
new_validator (inr _) endpoint auth_header = ok (with_client endpoint auth_header)

module _ {Value : Type 0} (j : Json Value) where
  -- `map.get(key).and_then(as_..)`
  abbrev pub member : {A : Type 0} → (Value → Option A) → Text → List (Text × Value) → Option A
  member read key map = Option.bind (lookup key map) read

  unfoldable pub fill : List (Text × Value) → IdentityClaims Value
  fill map = record (new introspection) {
    subject = member j.as_str (str "sub") map;
    preferred_username = member j.as_str (str "username") map;
    email = member j.as_str (str "email") map;
    client_id = member j.as_str (str "client_id") map;
    scope = member j.as_str (str "scope") map;
    expires_at = Option.map (λ exp. exp * second) (member j.as_u64 (str "exp") map);
    extra = map;
  }

  -- the check of `best_effort_username`
  unfoldable pub identified : IdentityClaims Value → Result (IdentityClaims Value)
  unfolding best_effort_username
  identified claims = elim (best_effort_username claims) [
    | none ↦
        err (upstream (str "introspection reported an active token carrying no identity claim"))
    | some username ↦ ok claims
  ]

  -- `UNIX_EPOCH + Duration::from_secs(exp)` panics where the seconds are no `i64`.
  abbrev pub overflows : Option ℕ → Bool
  overflows none = false
  overflows (some time) = leb instant_limit time

  unfoldable pub timed : IdentityClaims Value → Result (IdentityClaims Value)
  unfolding identified
  timed claims =
      if overflows claims.expires_at
      then panic (str "overflow when adding duration to instant")
      else identified claims

  -- the match on `active`, and what follows it
  unfoldable pub claims_of_object : List (Text × Value) → Result (IdentityClaims Value)
  unfolding fill timed
  claims_of_object map = elim (member j.as_bool (str "active") map) [
    | none ↦ err (upstream (str "introspection response omitted the required `active` member"))
    | some active ↦
        if active then timed (fill map) else err (invalid_credential (str "token is not active"))
  ]

  unfoldable pub claims_from_response : Value → Result (IdentityClaims Value)
  unfolding claims_of_object
  claims_from_response body = elim (j.as_object body) [
    | none ↦ err (upstream (str "introspection response was not a JSON object"))
    | some map ↦ claims_of_object map
  ]

  module _ {Response W : Type 0} (http : Http Response Value W) (v : IntrospectionValidator) where
    abbrev pub received : Text ⊎ Response → M W Response
    received (inl e) = fail (upstream (str "introspection request failed: " ++ e))
    received (inr response) = pure response

    abbrev pub parsed : Text ⊎ Value → M W Value
    parsed (inl e) = fail (upstream (str "could not parse introspection response: " ++ e))
    parsed (inr body) = pure body

    -- what follows a response
    unfoldable pub read_response : Response → M W (IdentityClaims Value)
    unfolding claims_from_response
    read_response response =
        if http.is_success response
        then (do
          body ← run (http.json response)
          value ← parsed body
          lift (claims_from_response value))
        else fail (upstream (str "introspection endpoint returned status " ++ http.status response))

    -- The scope is not sent.
    unfoldable pub validate : Text → Option Text → M W (IdentityClaims Value)
    unfolding read_response
    validate api_key scope = do
      answer ← run (http.post_form v.endpoint v.auth_header ((str "token", api_key) ∷ List.[]))
      response ← received answer
      read_response response

    unfoldable pub introspection_validator : TokenValidator Value W
    unfolding validate
    introspection_validator = record { name = str "introspection"; validate = validate }
