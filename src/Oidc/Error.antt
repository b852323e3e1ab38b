-- ===== src/Oidc/Error.antt =====
-- src/oidc/error.rs: the classification of the errors of `openidconnect`. They have the variants that
-- the source names, with the text that each displays; `other` stands for the rest.
use authn_kit.Prelude.{Bool, true, false, ◌++◌}
use authn_kit.Text.{Text, str}
use authn_kit.Error.{AuthError, invalid_credential, upstream, internal}

pub data DiscoveryError : Type 0 where
  url_parse : Text → DiscoveryError
  parse : Text → DiscoveryError
  request : Text → DiscoveryError
  response : Text → Text → DiscoveryError
  validation : Text → DiscoveryError
  other : Text → DiscoveryError

pub data SignatureVerificationError : Type 0 where
  no_matching_key : SignatureVerificationError
  crypto_error : Text → SignatureVerificationError
  ambiguous_key_id : Text → SignatureVerificationError
  other : Text → SignatureVerificationError

pub data ClaimsVerificationError : Type 0 where
  expired : Text → ClaimsVerificationError
  invalid_audience : Text → ClaimsVerificationError
  invalid_issuer : Text → ClaimsVerificationError
  invalid_nonce : Text → ClaimsVerificationError
  invalid_auth_time : Text → ClaimsVerificationError
  signature_verification : SignatureVerificationError → ClaimsVerificationError
  unsupported : Text → ClaimsVerificationError
  other : Text → ClaimsVerificationError

pub data CoreErrorResponseType : Type 0 where
  unsupported_grant_type invalid_grant invalid_client unauthorized_client : CoreErrorResponseType
  other : Text → CoreErrorResponseType

pub data RequestTokenError : Type 0 where
  server_response : CoreErrorResponseType → RequestTokenError
  request : Text → RequestTokenError
  parse : Text → RequestTokenError
  other : Text → RequestTokenError

-- `From<DiscoveryError>`
unfoldable pub of_discovery : DiscoveryError → AuthError
of_discovery (DiscoveryError.url_parse e) = internal (str "malformed discovery url: " ++ e)
of_discovery (DiscoveryError.parse e) = upstream (str "could not parse provider metadata: " ++ e)
of_discovery (DiscoveryError.request e) = upstream (str "discovery request failed: " ++ e)
of_discovery (DiscoveryError.response status e) =
    upstream (str "discovery endpoint returned status " ++ status ++ str ": " ++ e)
of_discovery (DiscoveryError.validation e) =
    upstream (str "provider metadata failed validation: " ++ e)
of_discovery (DiscoveryError.other e) = upstream (str "discovery failed: " ++ e)

-- `From<ClaimsVerificationError>`, where `show` displays a signature's error
unfoldable pub of_verification :
    (SignatureVerificationError → Text) → ClaimsVerificationError → AuthError
of_verification show (ClaimsVerificationError.expired e) =
    invalid_credential (str "token expired: " ++ e)
of_verification show (ClaimsVerificationError.invalid_audience e) =
    invalid_credential (str "wrong audience: " ++ e)
of_verification show (ClaimsVerificationError.invalid_issuer e) =
    invalid_credential (str "wrong issuer: " ++ e)
of_verification show (ClaimsVerificationError.invalid_nonce e) =
    invalid_credential (str "nonce mismatch: " ++ e)
of_verification show (ClaimsVerificationError.invalid_auth_time e) =
    invalid_credential (str "authentication too old: " ++ e)
of_verification show (ClaimsVerificationError.signature_verification e) =
    invalid_credential (str "signature verification: " ++ show e)
of_verification show (ClaimsVerificationError.unsupported e) =
    AuthError.unsupported (str "unsupported token: " ++ e)
of_verification show (ClaimsVerificationError.other e) =
    invalid_credential (str "claims verification: " ++ e)

-- `From<RequestTokenError>`, where `debug` is the derived `Debug` of an error's type
unfoldable pub of_exchange : (CoreErrorResponseType → Text) → RequestTokenError → AuthError
of_exchange debug (RequestTokenError.server_response CoreErrorResponseType.unsupported_grant_type) =
    AuthError.unsupported (str "the identity provider does not support this grant type")
of_exchange debug (RequestTokenError.server_response CoreErrorResponseType.invalid_grant) =
    invalid_credential (str "credentials rejected by the provider")
of_exchange debug (RequestTokenError.server_response CoreErrorResponseType.invalid_client) =
    invalid_credential (str "credentials rejected by the provider")
of_exchange debug (RequestTokenError.server_response CoreErrorResponseType.unauthorized_client) =
    invalid_credential (str "credentials rejected by the provider")
of_exchange debug (RequestTokenError.server_response (CoreErrorResponseType.other e)) =
    upstream (str "token endpoint error: " ++ debug (CoreErrorResponseType.other e))
of_exchange debug (RequestTokenError.request e) = upstream (str "token request failed: " ++ e)
of_exchange debug (RequestTokenError.parse e) =
    upstream (str "could not parse token response: " ++ e)
of_exchange debug (RequestTokenError.other e) = upstream (str "token exchange failed: " ++ e)

unfoldable pub is_possibly_stale_keys : ClaimsVerificationError → Bool
is_possibly_stale_keys
      (ClaimsVerificationError.signature_verification SignatureVerificationError.no_matching_key) =
    true
is_possibly_stale_keys
      (ClaimsVerificationError.signature_verification (SignatureVerificationError.crypto_error _)) =
    true
is_possibly_stale_keys
      (ClaimsVerificationError.signature_verification
        (SignatureVerificationError.ambiguous_key_id _)) =
    true
is_possibly_stale_keys _ = false
