-- ===== src/Env.antt =====
-- src/env.rs: configuration from environment variables. `var` is `std::env::var` of the environment.
pub mod Number
pub mod Laws
pub mod Items
pub mod Settings
pub mod Configured
use authn_kit.Prelude.{
  ℕ, ◌*◌, Bool, true, false, not, ◌||◌, ◌++◌, ◌⊎◌, inl, inr, ◌==◌, Option, none, some, get_or, List,
  [], ◌∷◌, map, filter, is_empty, if◌then◌else◌,
}
use mathlib.Core.Option
use authn_kit.Text.{Text, str, trim, split_by, ends_with_char}
use authn_kit.Cookie.{second}
use authn_kit.Error.{AuthError, internal}
use authn_kit.Env.Number.{parse_u64}
use authn_kit.Oidc.Config.{
  OidcConfig, OidcConfigError, issuer_url, redirect_url, new_config, with_client_secret,
  with_scopes, with_min_refresh_interval,
}

pub data EnvError : Type 0 where
  missing : Text → EnvError
  not_unicode : Text → EnvError
  invalid : Text → Text → EnvError
  empty_prefix : EnvError

-- `Display for EnvError`, of `thiserror`
unfoldable pub display : EnvError → Text
display (missing name) = name ++ str " is not set"
display (not_unicode name) = name ++ str " is not valid UTF-8"
display (invalid name detail) = name ++ str " could not be parsed: " ++ detail
display empty_prefix =
    str
      "an environment prefix is required, so that generic names such as OIDC_CLIENT_ID cannot collide with the application's own variables"

-- `From<EnvError> for AuthError`
unfoldable pub of_env : EnvError → AuthError
unfolding display
of_env e = internal (display e)

-- What `std::env::var` answers.
pub data Var : Type 0 where
  present : Text → Var
  not_present : Var
  not_unicode : Var

pub record EnvConfig : Type 0 where
  pub prefix : Text

infixl 5 ◌>>=◌
abbrev pub ◌>>=◌ : {A B : Type 0} → EnvError ⊎ A → (A → EnvError ⊎ B) → EnvError ⊎ B
inl e >>= f = inl e
inr a >>= f = f a

abbrev pub default_prefix : Text
unfolding str
default_prefix = str "AUTHN_"

unfoldable pub new : EnvConfig
new = record { prefix = default_prefix }

unfoldable pub with_prefix : Text → EnvError ⊎ EnvConfig
unfolding ends_with_char
with_prefix prefix =
    let trimmed = trim prefix in
    if is_empty trimmed
    then inl empty_prefix
    else if ends_with_char b'_' trimmed
    then inr (record { prefix = trimmed })
    else inr (record { prefix = trimmed ++ str "_" })

unfoldable pub name : EnvConfig → Text → Text
name c suffix = c.prefix ++ suffix

-- `raw.split([' ', ','])`, and what is done with its items
unfoldable pub items : Text → List Text
items raw =
    filter (λ item. not (is_empty item)) (map trim (split_by (λ c. c == b' ' || c == b',') raw))

module _ (var : Text → Var) (c : EnvConfig) where
  -- the match on what `std::env::var` answers
  abbrev pub set_value : Text → Var → EnvError ⊎ Option Text
  set_value full (present value) = if is_empty (trim value) then inr none else inr (some value)
  set_value full not_present = inr none
  set_value full Var.not_unicode = inl (EnvError.not_unicode full)

  unfoldable pub get : Text → EnvError ⊎ Option Text
  unfolding name
  get suffix = set_value (name c suffix) (var (name c suffix))

  abbrev pub required : Text → Option Text → EnvError ⊎ Text
  required full none = inl (missing full)
  required full (some value) = inr value

  unfoldable pub require : Text → EnvError ⊎ Text
  unfolding get name
  require suffix = do value ← get suffix; required (name c suffix) value

  -- `from_str` is `T::from_str`, with the error's message.
  abbrev pub parsed : {T : Type 0} → (Text → Text ⊎ T) → Text → Option Text → EnvError ⊎ Option T
  parsed from_str full none = inr none
  parsed from_str full (some raw) = elim (from_str (trim raw)) [
    | inl detail ↦ inl (invalid full detail)
    | inr value ↦ inr (some value)
  ]

  unfoldable pub parse : {T : Type 0} → (Text → Text ⊎ T) → Text → EnvError ⊎ Option T
  unfolding get name
  parse from_str suffix = do raw ← get suffix; parsed from_str (name c suffix) raw

  unfoldable pub parse_or : {T : Type 0} → (Text → Text ⊎ T) → Text → T → EnvError ⊎ T
  unfolding parse
  parse_or from_str suffix default = do value ← parse from_str suffix; inr (get_or value default)

  unfoldable pub duration_secs : Text → EnvError ⊎ Option ℕ
  unfolding parse
  duration_secs suffix = do secs ← parse parse_u64 suffix; inr (Option.map (λ n. n * second) secs)

  unfoldable pub list : Text → EnvError ⊎ Option (List Text)
  unfolding get
  list suffix = do raw ← get suffix; inr (Option.map items raw)

  -- `matches!(self.get(suffix), Ok(Some(_)))`
  abbrev pub is_present : EnvError ⊎ Option Text → Bool
  is_present (inr (some value)) = true
  is_present (inr none) = false
  is_present (inl e) = false

  unfoldable pub is_set : Text → Bool
  unfolding get
  is_set suffix = is_present (get suffix)

  -- `e.to_string()` of a configuration's error
  abbrev pub config_detail : OidcConfigError → Text
  config_detail (issuer_url e) = str "invalid issuer url: " ++ e
  config_detail (redirect_url e) = str "invalid redirect url: " ++ e

  abbrev pub checked : OidcConfigError ⊎ OidcConfig → EnvError ⊎ OidcConfig
  checked (inl e) = inl (invalid (name c (str "OIDC_ISSUER_URL")) (config_detail e))
  checked (inr config) = inr config

  -- `if let Some(v) = o { config = f(v) }`
  abbrev pub applied :
      {A : Type 0} → Option A → (A → OidcConfig → OidcConfig) → OidcConfig → OidcConfig
  applied none f config = config
  applied (some v) f config = f v config

  -- what follows the three settings that are required
  unfoldable pub optional_settings : OidcConfig → EnvError ⊎ OidcConfig
  unfolding get list duration_secs
  optional_settings config = do
    secret ← get (str "OIDC_CLIENT_SECRET")
    scopes ← list (str "OIDC_SCOPES")
    interval ← duration_secs (str "OIDC_MIN_REFRESH_SECS")
    inr (
        applied interval with_min_refresh_interval
          (applied scopes with_scopes (applied secret with_client_secret config)))

  -- `parse_url` is the check of `IssuerUrl::new` and `RedirectUrl::new`.
  unfoldable pub oidc_config : (Text → Text ⊎ Text) → EnvError ⊎ OidcConfig
  unfolding require optional_settings
  oidc_config parse_url = do
    issuer ← require (str "OIDC_ISSUER_URL")
    client_id ← require (str "OIDC_CLIENT_ID")
    redirect ← require (str "OIDC_REDIRECT_URL")
    config ← checked (new_config parse_url issuer client_id redirect)
    optional_settings config
