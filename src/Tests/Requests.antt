-- ===== src/Tests/Requests.antt =====
-- The theorems on requests, credentials and claims, at single requests.
use authn_kit.Prelude.{arith, ℕ, ◌≡◌, refl, Option, some, List, if◌then◌else◌}
use authn_kit.Text.{
  Text, str, text_eq, lower, is_whitespace, trim_start, trim_end, split_once, split_by,
}
use authn_kit.Text.Utf8.{from_utf8, as_bytes}
use authn_kit.Text.Splitting.{join}
use authn_kit.Map.{lookup, insert}
use authn_kit.Request.{
  with_path, with_route_pattern, with_query, with_header, with_cookie, header_all, header, cookie,
  query_param, path_param, segment_value,
}
use authn_kit.Credential.{
  basic, from_authorization_header, of_scheme, parse_basic, read_basic, split_basic,
}
use authn_kit.Credential.Laws.{from_authorization_header-basic}

program : Unit {0}
unfolding str text_eq lower is_whitespace trim_start trim_end split_once split_by from_utf8 as_bytes
    join lookup insert with_path with_route_pattern with_query with_header with_cookie header_all
    header cookie query_param path_param segment_value from_authorization_header of_scheme
    parse_basic read_basic split_basic
program = tt

-- an engine that decodes nothing but the payload of the test
abbrev decode : Text → Option (List ℕ)
unfolding str text_eq as_bytes
decode payload =
    if text_eq payload (str "YTpiOmM=") then some (as_bytes (str "a:b:c")) else Option.none

from_authorization_header-basic_example :
    from_authorization_header decode (str "BASIC YTpiOmM=") ≡ basic (str "a") (str "b:c")
unfolding program
from_authorization_header-basic_example =
    from_authorization_header-basic decode (str "BASIC") (str "YTpiOmM=") (str "a") (str "b:c")
      (as_bytes (str "a:b:c")) refl refl (λ h. cc) refl refl (ground arith)
