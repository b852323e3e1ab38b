-- ===== src/Adapters/Actix.antt =====
-- src/adapters/actix.rs: requests from those of actix, its cookies, and the rendering of errors.
use authn_kit.Prelude.{ℕ, ◌/◌, Bool, ltb, Option, none, some, List, [], map, if◌then◌else◌}
use mathlib.Core.Option
use authn_kit.Text.{Text}
use authn_kit.Cookie.{CookieDirective, SameSite, second}
use authn_kit.Error.{AuthError, redirect, status, client_message}
use authn_kit.Request.{AuthRequest, builder, with_method, with_path, with_route_pattern, with_query}
use authn_kit.Adapters.{with_headers, with_cookies}
use authn_kit.Adapters.Axum.{status_code_of}

-- The `cookies` are those that actix parses, if it does.
pub record ServiceRequest : Type 0 where
  pub method : Text
  pub path : Text
  pub match_pattern : Option Text
  pub query_string : Text
  pub headers : List (Text × List ℕ)
  pub cookies : Option (List (Text × Text))

abbrev pub parsed_cookies : Option (List (Text × Text)) → List (Text × Text)
parsed_cookies none = []
parsed_cookies (some cookies) = cookies

unfoldable pub of_request : (List ℕ → Option Text) → ServiceRequest → AuthRequest
unfolding with_headers with_cookies with_method with_path with_route_pattern with_query
of_request to_str request = with_cookies (parsed_cookies request.cookies) (
    with_headers to_str request.headers (
      with_query request.query_string (
        with_route_pattern request.match_pattern
          (with_path request.path (with_method request.method builder)))))

-- `Cookie` of actix, whose durations have an `i64` of seconds.
pub record ActixCookie : Type 0 where
  pub name : Text
  pub value : Text
  pub path : Option Text
  pub domain : Option Text
  pub max_age : Option ℕ
  pub http_only : Bool
  pub secure : Bool
  pub same_site : Option SameSite

-- `CookieDuration::try_from(max_age).unwrap_or(CookieDuration::ZERO)`
abbrev pub cookie_duration : ℕ → ℕ
cookie_duration max_age = if ltb (max_age / second) 9223372036854775808 then max_age else 0

unfoldable pub of_directive : CookieDirective → ActixCookie
of_directive c = record {
  name = c.name;
  value = c.value;
  path = c.path;
  domain = c.domain;
  max_age = Option.map cookie_duration c.max_age;
  http_only = c.http_only;
  secure = c.secure;
  same_site = c.same_site;
}

pub record HttpResponse : Type 0 where
  pub status_code : ℕ
  pub location : Option Text
  pub cookies : List ActixCookie
  pub message : Option Text

unfoldable pub error_to_response : AuthError → HttpResponse
unfolding of_directive status client_message
error_to_response (redirect location cookies) = record {
  status_code = 302;
  location = some location;
  cookies = map of_directive cookies;
  message = none;
}
error_to_response e = record {
  status_code = status_code_of (status e);
  location = none;
  cookies = [];
  message = some (client_message e);
}
