-- ===== src/Credential.antt =====
-- src/credential.rs: the credential of a request, as its `Authorization` header presents it. A
-- `SecretString` is its text. The `base64` engine is a parameter.
pub mod Laws
use authn_kit.Prelude.{ℕ, Bool, true, false, Option, some, List, [], ◌∷◌, if◌then◌else◌}
use authn_kit.Text.{Text, str, text_eq, trim, to_ascii_lowercase, split_once}
use authn_kit.Text.Utf8.{from_utf8}
use authn_kit.Request.{AuthRequest, header}

pub data Credential : Type 0 where
  bearer : Text → Credential
  basic : Text → Text → Credential
  other : Text → Text → Credential
  malformed : Text → Text → Credential
  none : Credential

-- the closure `malformed` of `parse_basic`
abbrev malformed_basic : Text → Credential
malformed_basic detail = malformed (str "basic") detail

-- What `parse_basic` makes of the bytes, and of the text that they encode.
unfoldable pub split_basic : Text → Credential
split_basic decoded = elim (split_once b':' decoded) [
  | Option.none ↦ malformed_basic (str "missing ':' separator")
  | some (id, secret) ↦ basic id secret
]

unfoldable pub read_basic : List ℕ → Credential
unfolding split_basic
read_basic bytes = elim (from_utf8 bytes) [
  | Option.none ↦ malformed_basic (str "not valid UTF-8")
  | some decoded ↦ split_basic decoded
]

-- `decode` is `general_purpose::STANDARD.decode(parameter).ok()`.
module _ (decode : Text → Option (List ℕ)) where
  unfoldable pub parse_basic : Text → Credential
  unfolding read_basic
  parse_basic parameter = elim (decode parameter) [
    | Option.none ↦ malformed_basic (str "not valid base64")
    | some bytes ↦ read_basic bytes
  ]

  -- the match on the scheme in lower case
  unfoldable pub of_scheme : Text → Text → Credential
  of_scheme scheme parameter =
      if text_eq scheme (str "bearer")
      then bearer parameter
      else if text_eq scheme (str "basic")
      then parse_basic parameter
      else other scheme parameter

  unfoldable pub from_authorization_header : Text → Credential
  unfolding of_scheme
  from_authorization_header value = elim (split_once b' ' (trim value)) [
    | Option.none ↦ none
    | some (scheme, parameter) ↦ of_scheme (to_ascii_lowercase scheme) (trim parameter)
  ]

  unfoldable pub from_request : AuthRequest → Credential
  from_request request = elim (header request (str "authorization")) [
    | Option.none ↦ none
    | some value ↦ from_authorization_header value
  ]

unfoldable pub scheme : Credential → Option Text
scheme (bearer _) = some (str "bearer")
scheme (basic _ _) = some (str "basic")
scheme (other s _) = some s
scheme (malformed s _) = some s
scheme none = Option.none

unfoldable pub is_none : Credential → Bool
is_none none = true
is_none _ = false
