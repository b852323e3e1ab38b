-- ===== src/Oidc/Config.antt =====
-- src/oidc/config.rs: how an OIDC client identifies itself. A URL is its text; `parse_url` is the
-- check that `IssuerUrl::new` and `RedirectUrl::new` make.
use authn_kit.Prelude.{ℕ, ◌*◌, ◌⊎◌, inl, inr, Bool, true, Option, none, some, List, [], ◌∷◌}
use authn_kit.Text.{Text, str}
use authn_kit.Cookie.{second}

pub data OidcConfigError : Type 0 where
  issuer_url : Text → OidcConfigError
  redirect_url : Text → OidcConfigError

pub record OidcConfig : Type 0 where
  pub issuer_url : Text
  pub client_id : Text
  pub client_secret : Option Text
  pub redirect_url : Text
  pub scopes : List Text
  pub min_refresh_interval : ℕ
  pub use_pkce : Bool

abbrev pub default_min_refresh_interval : ℕ
default_min_refresh_interval = 30 * second

abbrev default_scopes : List Text
default_scopes = str "openid" ∷ str "email" ∷ str "profile" ∷ []

unfoldable pub new_config : (Text → Text ⊎ Text) → Text → Text → Text → OidcConfigError ⊎ OidcConfig
new_config parse_url issuer_text client_id redirect_text = elim (parse_url issuer_text) [
  | inl e ↦ inl (OidcConfigError.issuer_url e)
  | inr issuer ↦ elim (parse_url redirect_text) [
    | inl e ↦ inl (OidcConfigError.redirect_url e)
    | inr redirect ↦ inr (record {
      issuer_url = issuer;
      client_id = client_id;
      client_secret = none;
      redirect_url = redirect;
      scopes = default_scopes;
      min_refresh_interval = default_min_refresh_interval;
      use_pkce = true;
    })
  ]
]

unfoldable pub with_client_secret : Text → OidcConfig → OidcConfig
with_client_secret secret c = record c { client_secret = some secret }

unfoldable pub with_scopes : List Text → OidcConfig → OidcConfig
with_scopes scopes c = record c { scopes = scopes }

unfoldable pub with_min_refresh_interval : ℕ → OidcConfig → OidcConfig
with_min_refresh_interval interval c = record c { min_refresh_interval = interval }

unfoldable pub with_pkce : Bool → OidcConfig → OidcConfig
with_pkce use_pkce c = record c { use_pkce = use_pkce }
