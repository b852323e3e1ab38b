-- ===== src/Request/Laws.antt =====
-- src/request.rs: what the accessors of a request see of what its builder was given.
use authn_kit.Prelude.{◌≡◌, some, get_or, [], ◌∷◌, ◌++◌, first, arith, if◌then◌else◌}
use authn_kit.Text.{Text, text_eq, to_ascii_lowercase}
use authn_kit.Map.{lookup, lookup-insert, text_Eq}
use authn_kit.Request.{AuthRequest, with_header, with_cookie, header_all, header, cookie}

-- A header value that is appended comes behind those that the request has under that name, in any
-- case of its letters, and no other header changes.
pub header_all-with_header :
    (name value asked : Text) (r : AuthRequest)
    → header_all (with_header name value r) asked ≡ (
        if text_eq (to_ascii_lowercase name) (to_ascii_lowercase asked)
        then header_all r name ++ value ∷ []
        else header_all r asked)
unfolding header_all with_header
header_all-with_header name value asked r = ground (
  arith,
  lookup-insert (to_ascii_lowercase name) (to_ascii_lowercase asked)
      (get_or (lookup (to_ascii_lowercase name) r.headers) [] ++ value ∷ []) r.headers,
)

-- `header` is the first of the values that `header_all` gives.
pub header-header_all : (r : AuthRequest) (name : Text) → header r name ≡ first (header_all r name)
unfolding header header_all
header-header_all r name = ground arith

-- The last cookie of a name counts.
pub cookie-with_cookie :
    (name value asked : Text) (r : AuthRequest)
    → cookie (with_cookie name value r) asked
      ≡ (if text_eq name asked then some value else cookie r asked)
unfolding cookie with_cookie
cookie-with_cookie name value asked r = lookup-insert name asked value r.cookies
