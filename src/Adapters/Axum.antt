-- ===== src/Adapters/Axum.antt =====
-- src/adapters/axum.rs: requests from the parts of axum, and the rendering of errors.
use authn_kit.Prelude.{
  ℕ, Bool, true, ◌&&◌, leb, Option, none, some, get_or, List, [], ◌∷◌, ◌++◌, map, if◌then◌else◌,
}
use authn_kit.Text.{Text, str, text_eq, trim, split, split_once}
use authn_kit.Cookie.{display}
use authn_kit.Error.{AuthError, redirect, status, client_message}
use authn_kit.Effect.{M}
use authn_kit.Request.{AuthRequest, builder, with_method, with_path, with_route_pattern, with_query}
use authn_kit.Scope.{AuthScope}
use authn_kit.Gateway.{AuthGateway, gateway_authenticate}
use authn_kit.Adapters.{with_headers, with_cookies}

pub record Parts : Type 0 where
  pub method : Text
  pub path : Text
  pub matched_path : Option Text
  pub query : Option Text
  pub headers : List (Text × List ℕ)

-- The pairs of the segments that have a `=`, in the text of a `Cookie` header.
unfoldable pub pairs_of_segments : List Text → List (Text × Text)
pairs_of_segments [] = []
pairs_of_segments (segment ∷ segments) = elim (split_once b'=' (trim segment)) [
  | none ↦ pairs_of_segments segments
  | some pair ↦ pair ∷ pairs_of_segments segments
]

unfoldable pub cookies_of_value : Text → List (Text × Text)
unfolding pairs_of_segments
cookies_of_value value = pairs_of_segments (split b';' value)

module _ (to_str : List ℕ → Option Text) where
  -- the names of a `HeaderMap` are in lower case
  unfoldable pub cookies_from_headers : List (Text × List ℕ) → List (Text × Text)
  unfolding cookies_of_value
  cookies_from_headers [] = []
  cookies_from_headers ((name, value) ∷ headers) =
      if text_eq name (str "cookie")
      then elim (to_str value) [
        | none ↦ cookies_from_headers headers
        | some text ↦ cookies_of_value text ++ cookies_from_headers headers
      ]
      else cookies_from_headers headers

  unfoldable pub of_parts : Parts → AuthRequest
  unfolding cookies_from_headers with_headers with_cookies with_method with_path with_route_pattern
      with_query
  of_parts parts = with_cookies (cookies_from_headers parts.headers) (
      with_headers to_str parts.headers (
        with_query (get_or parts.query []) (
          with_route_pattern parts.matched_path
            (with_path parts.path (with_method parts.method builder)))))

  module _ {U S W : Type 0} ⦃s : AuthScope S⦄ (decode : Text → Option (List ℕ)) where
    unfoldable pub authenticate : AuthGateway U S W → Parts → M W (Option U)
    unfolding of_parts
    authenticate gateway parts = gateway_authenticate decode gateway (of_parts parts)

-- What a client gets of a refused request: the header values, and the message of the JSON body.
pub record Response : Type 0 where
  pub status_code : ℕ
  pub location : Option Text
  pub set_cookies : List Text
  pub message : Option Text

-- `StatusCode::from_u16(..).unwrap_or(INTERNAL_SERVER_ERROR)`
abbrev pub status_code_of : ℕ → ℕ
status_code_of n = if leb 100 n && leb n 999 then n else 500

-- `valid` is whether `http` takes a text for the value of a header.
module _ (valid : Text → Bool) where
  abbrev all_valid : List Text → Bool
  all_valid [] = true
  all_valid (value ∷ values) = valid value && all_valid values

  unfoldable pub into_response : AuthError → Response
  unfolding status client_message display
  into_response (redirect location cookies) =
      let values = map display cookies in
      if valid location && all_valid values
      then record {
        status_code = 302;
        location = some location;
        set_cookies = values;
        message = none;
      }
      else record { status_code = 500; location = none; set_cookies = []; message = none }
  into_response e = record {
    status_code = status_code_of (status e);
    location = none;
    set_cookies = [];
    message = some (client_message e);
  }
