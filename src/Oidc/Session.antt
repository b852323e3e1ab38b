-- ===== src/Oidc/Session.antt =====
-- src/oidc/session.rs: the session that a cookie carries, and the settings of the cookies.
use authn_kit.Prelude.{ℕ, ◌*◌, Bool, true, Option, none, some, is_empty, if◌then◌else◌}
use authn_kit.Text.{Text, str}
use authn_kit.Cookie.{SameSite, lax, CookieDirective, second, with_domain_opt, with_http_only}
use authn_kit.Cookie
use authn_kit.Error.{unauthenticated}
use authn_kit.Effect.{Result, ok, err}

pub record Session : Type 0 where
  pub id_token : Text
  pub expires_at : Option ℕ

-- The trait `SessionCodec`.
pub record SessionCodec : Type 0 where
  pub encode : Session → Result Text
  pub decode : Text → Result Session

unfoldable pub id_token_codec : SessionCodec
id_token_codec = record {
  encode = λ session. ok session.id_token;
  decode = λ raw.
      if is_empty raw
      then err (unauthenticated (str "empty session cookie"))
      else ok (record { id_token = raw; expires_at = none });
}

pub record CookieSettings : Type 0 where
  pub name : Text
  pub path : Text
  pub domain : Option Text
  pub max_age : ℕ
  pub secure : Bool
  pub same_site : Option SameSite

unfoldable pub session : Text → CookieSettings
session name = record {
  name = name;
  path = str "/";
  domain = none;
  max_age = (24 * 60 * 60) * second;
  secure = true;
  same_site = some lax;
}

unfoldable pub protection : Text → CookieSettings
protection name = record {
  name = name;
  path = str "/";
  domain = none;
  max_age = (10 * 60) * second;
  secure = true;
  same_site = some lax;
}

unfoldable pub with_path : Text → CookieSettings → CookieSettings
with_path path c = record c { path = path }

unfoldable pub with_domain : Option Text → CookieSettings → CookieSettings
with_domain domain c = record c { domain = domain }

unfoldable pub with_max_age : ℕ → CookieSettings → CookieSettings
with_max_age max_age c = record c { max_age = max_age }

unfoldable pub with_secure : Bool → CookieSettings → CookieSettings
with_secure secure c = record c { secure = secure }

unfoldable pub with_same_site : Option SameSite → CookieSettings → CookieSettings
with_same_site same_site c = record c { same_site = same_site }

unfoldable pub set : CookieSettings → Text → CookieDirective
unfolding Cookie.set Cookie.with_path with_domain_opt Cookie.with_max_age with_http_only
    Cookie.with_secure Cookie.with_same_site
set c value = Cookie.with_same_site c.same_site (
    Cookie.with_secure c.secure (
      with_http_only true (
        Cookie.with_max_age c.max_age
          (with_domain_opt c.domain (Cookie.with_path c.path (Cookie.set c.name value))))))

unfoldable pub clear : CookieSettings → CookieDirective
unfolding Cookie.clear Cookie.set Cookie.with_path with_domain_opt Cookie.with_secure
    Cookie.with_same_site
clear c = Cookie.with_same_site c.same_site (
    Cookie.with_secure c.secure
      (with_domain_opt c.domain (Cookie.with_path c.path (Cookie.clear c.name))))
