-- ===== src/Cookie.antt =====
-- src/cookie.rs: a cookie to set or to clear, and its rendering as a `Set-Cookie` value. Durations
-- are nanoseconds.
pub mod Laws
use authn_kit.Prelude.{
  ℕ, ◌*◌, ◌/◌, Bool, true, false, Option, some, List, [], ◌∷◌, ◌++◌, if◌then◌else◌,
}
use authn_kit.Text.{Text, str, to_decimal}

pub data SameSite : Type 0 where
  strict lax none : SameSite

pub record CookieDirective : Type 0 where
  pub name : Text
  pub value : Text
  pub path : Option Text
  pub domain : Option Text
  pub max_age : Option ℕ
  pub http_only : Bool
  pub secure : Bool
  pub same_site : Option SameSite

-- Nanoseconds in a second: `Duration::from_secs(n)` is `n * second`.
abbrev pub second : ℕ
second = 1_000_000_000

unfoldable pub set : Text → Text → CookieDirective
set name value = record {
  name = name;
  value = value;
  path = Option.none;
  domain = Option.none;
  max_age = Option.none;
  http_only = true;
  secure = true;
  same_site = some lax;
}

unfoldable pub clear : Text → CookieDirective
unfolding set
clear name = record (set name []) { value = []; max_age = some 0 }

unfoldable pub with_path : Text → CookieDirective → CookieDirective
with_path path c = record c { path = some path }

unfoldable pub with_domain : Text → CookieDirective → CookieDirective
with_domain domain c = record c { domain = some domain }

unfoldable pub with_domain_opt : Option Text → CookieDirective → CookieDirective
with_domain_opt domain c = record c { domain = domain }

unfoldable pub with_max_age : ℕ → CookieDirective → CookieDirective
with_max_age max_age c = record c { max_age = some max_age }

unfoldable pub with_http_only : Bool → CookieDirective → CookieDirective
with_http_only http_only c = record c { http_only = http_only }

unfoldable pub with_secure : Bool → CookieDirective → CookieDirective
with_secure secure c = record c { secure = secure }

unfoldable pub with_same_site : Option SameSite → CookieDirective → CookieDirective
with_same_site same_site c = record c { same_site = same_site }

unfoldable pub same_site_text : SameSite → Text
same_site_text strict = str "Strict"
same_site_text lax = str "Lax"
same_site_text none = str "None"

-- `if let Some(v) = o { write!(f, "{label}{v}") }`
abbrev attribute : {A : Type 0} → Text → (A → Text) → Option A → Text
attribute label show Option.none = []
attribute label show (some v) = label ++ show v

-- `Display for CookieDirective`
unfoldable pub display : CookieDirective → Text
unfolding same_site_text to_decimal
display c =
    c.name
    ++ str "="
    ++ c.value
    ++ attribute (str "; Path=") (λ path. path) c.path
    ++ attribute (str "; Domain=") (λ domain. domain) c.domain
    ++ attribute (str "; Max-Age=") (λ max_age. to_decimal (max_age / second)) c.max_age
    ++ (if c.http_only then str "; HttpOnly" else [])
    ++ (if c.secure then str "; Secure" else [])
    ++ attribute (str "; SameSite=") same_site_text c.same_site
