-- ===== src/Adapters/Responses.antt =====
-- src/adapters: what a client learns of a refused request.
use authn_kit.Prelude.{◌≡◌, refl, Bool}
use authn_kit.Text.{Text}
use authn_kit.Error.{
  AuthError, unauthenticated, invalid_credential, malformed_credential, scope_denied, unsupported,
  upstream, internal,
}
use authn_kit.Adapters.Axum.{into_response}
use authn_kit.Adapters.Actix.{error_to_response}

-- The errors that are no redirect differ in nothing but their kind and their detail.
pub data Kind : Type 0 where
  no_credential rejected malformed denied not_supported unavailable fault : Kind

abbrev pub of_kind : Kind → Text → AuthError
of_kind no_credential = unauthenticated
of_kind rejected = invalid_credential
of_kind malformed = malformed_credential
of_kind denied = scope_denied
of_kind not_supported = unsupported
of_kind unavailable = upstream
of_kind fault = internal

-- No response shows the detail of an error: errors of one kind are rendered alike, by both adapters.
pub into_response-detail :
    (valid : Text → Bool) (kind : Kind) (detail other : Text)
    → (into_response valid (of_kind kind detail) ≡ into_response valid (of_kind kind other))
      × (error_to_response (of_kind kind detail) ≡ error_to_response (of_kind kind other))
unfolding into_response error_to_response
into_response-detail valid no_credential detail other = (refl, refl)
into_response-detail valid rejected detail other = (refl, refl)
into_response-detail valid malformed detail other = (refl, refl)
into_response-detail valid denied detail other = (refl, refl)
into_response-detail valid not_supported detail other = (refl, refl)
into_response-detail valid unavailable detail other = (refl, refl)
into_response-detail valid fault detail other = (refl, refl)
