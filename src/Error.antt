-- ===== src/Error.antt =====
-- src/error.rs: why authentication did not produce a principal. The source's constructor functions
-- (`AuthError::unauthenticated(detail)` and so on) are the constructors themselves.
use authn_kit.Prelude.{ℕ, Bool, true, false, List}
use authn_kit.Text.{Text, str}
use authn_kit.Cookie.{CookieDirective}

pub data AuthError : Type 0 where
  unauthenticated : Text → AuthError
  invalid_credential : Text → AuthError
  malformed_credential : Text → AuthError
  scope_denied : Text → AuthError
  redirect : Text → List CookieDirective → AuthError
  unsupported : Text → AuthError
  upstream : Text → AuthError
  internal : Text → AuthError

unfoldable pub status : AuthError → ℕ
status (unauthenticated _) = 401
status (invalid_credential _) = 401
status (malformed_credential _) = 400
status (scope_denied _) = 403
status (redirect _ _) = 302
status (unsupported _) = 501
status (upstream _) = 503
status (internal _) = 500

unfoldable pub client_message : AuthError → Text
client_message (unauthenticated _) = str "Authentication required"
client_message (invalid_credential _) = str "Invalid or expired credentials"
client_message (malformed_credential _) = str "Malformed credentials"
client_message (scope_denied _) = str "Not authorised for this resource"
client_message (redirect _ _) = str "Redirecting to sign in"
client_message (unsupported _) = str "Authentication method not supported"
client_message (upstream _) = str "Authentication service unavailable"
client_message (internal _) = str "Internal authentication error"

unfoldable pub detail : AuthError → Text
detail (unauthenticated d) = d
detail (invalid_credential d) = d
detail (malformed_credential d) = d
detail (scope_denied d) = d
detail (redirect location _) = location
detail (unsupported d) = d
detail (upstream d) = d
detail (internal d) = d

unfoldable pub is_service_fault : AuthError → Bool
is_service_fault (upstream _) = true
is_service_fault (internal _) = true
is_service_fault _ = false
