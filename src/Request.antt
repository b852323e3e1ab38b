-- ===== src/Request.antt =====
-- src/request.rs: the fields of a request that authentication reads, and their builder.
pub mod Laws
pub mod Params
use authn_kit.Prelude.{
  ℕ, Option, none, some, List, [], ◌∷◌, ◌++◌, first, find_map, position, get_elem?, if◌then◌else◌,
  get_or,
}
use authn_kit.Text.{
  Text, str, text_eq, to_ascii_lowercase, to_ascii_uppercase, split, split_once, lower, upper,
  split_by,
}
use authn_kit.Map.{lookup, insert, text_Eq}

pub record AuthRequest : Type 0 where
  pub method : Text
  pub path : Text
  pub route_pattern : Option Text
  pub query : Text
  pub headers : List (Text × List Text)
  pub cookies : List (Text × Text)

-- `AuthRequestBuilder::default()`, whose one field is the request that it builds
abbrev pub builder : AuthRequest
builder = record {
  method = [];
  path = [];
  route_pattern = none;
  query = [];
  headers = [];
  cookies = [];
}

unfoldable pub with_method : Text → AuthRequest → AuthRequest
unfolding upper
with_method method r = record r { method = to_ascii_uppercase method }

unfoldable pub with_path : Text → AuthRequest → AuthRequest
with_path path r = record r { path = path }

unfoldable pub with_route_pattern : Option Text → AuthRequest → AuthRequest
with_route_pattern pattern r = record r { route_pattern = pattern }

unfoldable pub with_query : Text → AuthRequest → AuthRequest
with_query query r = record r { query = query }

-- `entry(name).or_default().push(value)`
unfoldable pub with_header : Text → Text → AuthRequest → AuthRequest
with_header name value r =
    let key = to_ascii_lowercase name in
    record r { headers = insert key (get_or (lookup key r.headers) [] ++ value ∷ []) r.headers }

unfoldable pub with_cookie : Text → Text → AuthRequest → AuthRequest
with_cookie name value r = record r { cookies = insert name value r.cookies }

-- Every value of a header; `&[]` if it is missing.
unfoldable pub header_all : AuthRequest → Text → List Text
header_all r name = get_or (lookup (to_ascii_lowercase name) r.headers) []

unfoldable pub header : AuthRequest → Text → Option Text
header r name = elim (lookup (to_ascii_lowercase name) r.headers) [ none ↦ none | some v ↦ first v ]

unfoldable pub cookie : AuthRequest → Text → Option Text
cookie r name = lookup name r.cookies

-- The closure of `query_param`: the value of a segment whose key is the name.
unfoldable pub segment_value : Text → Text → Option Text
segment_value name segment = elim (split_once b'=' segment) [
  | none ↦ none
  | some (key, value) ↦ if text_eq key name then some value else none
]

unfoldable pub query_param : AuthRequest → Text → Option Text
unfolding segment_value
query_param r name = find_map (segment_value name) (split b'&' r.query)

unfoldable pub path_param : AuthRequest → Text → Option Text
path_param r param = elim r.route_pattern [
  | none ↦ none
  | some pattern ↦ elim (position (λ segment. text_eq segment param) (split b'/' pattern)) [
    | none ↦ none
    | some i ↦ get_elem? (split b'/' r.path) i
  ]
]
