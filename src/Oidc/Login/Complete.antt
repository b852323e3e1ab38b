-- ===== src/Oidc/Login/Complete.antt =====
-- src/oidc/login.rs: how a login is completed from the provider's callback.
use authn_kit.Prelude.{◌++◌, Option, none, some, get_or, [], ◌∷◌, if◌then◌else◌}
use authn_kit.Text.{Text, str, text_eq}
use authn_kit.Error.{AuthError, unauthenticated, upstream}
use authn_kit.Effect.{M, pure, fail, lift, Clock, ◌>>=◌}
use authn_kit.Claims.{IdentityClaims}
use authn_kit.Oidc.Provider.{Library, matches, snapshot, verify_id_token}
use authn_kit.Oidc.Session.{set, clear}
use authn_kit.Oidc.Tokens.{TokenEndpoint, started, exchange, carried}
use authn_kit.Oidc.Login.{
  ProtectionData, Encoding, decode, CallbackParams, success, failure, LoginComplete, LoginFlow,
}

-- an error response of the provider
unfoldable pub declined : Text → Option Text → AuthError
declined error description =
    let detail = get_or description error in
    if text_eq error (str "access_denied")
    then unauthenticated (str "user declined sign-in: " ++ detail)
    else upstream (str "provider reported " ++ error ++ str " during sign-in: " ++ detail)

module _ {Metadata Client IdToken Value Request Response W : Type 0}
    (library : Library Metadata Client IdToken Value W)
    (endpoint : TokenEndpoint Client Request Response W) (clock : Clock W) (e : Encoding)
    (f : LoginFlow Metadata Client W) where
  abbrev pub with_verifier : Option Text → Request → Request
  with_verifier none request = request
  with_verifier (some verifier) request = endpoint.set_pkce_verifier verifier request

  abbrev pub presented_cookie : Option Text → M W Text
  presented_cookie none = fail (unauthenticated (str "protection cookie is missing"))
  presented_cookie (some raw) = pure raw

  unfoldable pub completed : Text → IdentityClaims Value → Text → LoginComplete Value
  completed destination claims value = record {
    claims = claims;
    redirect_to = destination;
    cookies = set f.session_cookie value ∷ clear f.protection_cookie ∷ [];
  }

  -- what follows the ID token of the response
  unfoldable pub finish : ProtectionData → Text → M W (LoginComplete Value)
  unfolding completed
  finish protection token = do
    claims ← verify_id_token library clock f.provider token (matches protection.nonce)
    value ← lift (f.codec.encode (record { id_token = token; expires_at = claims.expires_at }))
    pure (completed protection.destination claims value)

  -- what follows the answer of the endpoint
  unfoldable pub read_response : ProtectionData → Response → M W (LoginComplete Value)
  unfolding finish
  read_response protection response = do
    token ← carried endpoint (endpoint.id_token response)
    finish protection token

  -- what follows the check of the state
  unfoldable pub exchange_code : ProtectionData → Text → M W (LoginComplete Value)
  unfolding read_response
  exchange_code protection code = do
    current ← snapshot library clock f.provider
    request ← started endpoint (endpoint.exchange_code current.state.client code)
    response ← exchange endpoint (with_verifier protection.pkce_verifier request)
    read_response protection response

  unfoldable pub check_state : ProtectionData → Text → Text → M W (LoginComplete Value)
  unfolding exchange_code
  check_state protection code returned_state =
      if text_eq returned_state protection.csrf
      then exchange_code protection code
      else fail (unauthenticated (str "callback state does not match the protection cookie"))

  unfoldable pub complete : CallbackParams → Option Text → M W (LoginComplete Value)
  unfolding declined check_state
  complete (failure error description) protection_cookie = fail (declined error description)
  complete (success code returned_state) protection_cookie = do
    raw ← presented_cookie protection_cookie
    protection ← lift (decode e raw)
    check_state protection code returned_state
