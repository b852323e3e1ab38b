-- ===== src/Oidc/Tokens.antt =====
-- The token endpoint of a provider, as src/mechanisms/basic.rs and src/oidc/login.rs use it. The
-- requests to it are made by `openidconnect`, a parameter; a configuration's error is its message.
pub mod Laws
use authn_kit.Prelude.{ℕ, ◌++◌, ◌⊎◌, inl, inr, Option, none, some, List, [], ◌∷◌}
use authn_kit.Text.{Text, str}
use authn_kit.Error.{upstream, internal}
use authn_kit.Effect.{M, pure, fail, run, ◌>>=◌}
use authn_kit.Oidc.Error.{CoreErrorResponseType, RequestTokenError, of_exchange}

pub record TokenEndpoint (Client Request Response W : Type 0) : Type 0 where
  pub exchange_password : Client → Text → Text → Text ⊎ Request
  pub exchange_client_credentials : Client → Text ⊎ Request
  pub exchange_code : Client → Text → Text ⊎ Request
  pub add_scope : Text → Request → Request
  pub set_pkce_verifier : Text → Request → Request
  pub request_async : Request → W → (RequestTokenError ⊎ Response) × W
  pub expires_in : Response → Option ℕ
  pub id_token : Response → Option Text
  pub debug : CoreErrorResponseType → Text

module _ {Client Request Response W : Type 0}
    (endpoint : TokenEndpoint Client Request Response W) where
  -- `for scope in scopes { request = request.add_scope(scope.clone()); }`
  unfoldable pub add_scopes : List Text → Request → Request
  add_scopes [] request = request
  add_scopes (scope ∷ scopes) request = add_scopes scopes (endpoint.add_scope scope request)

  -- the `map_err` on an exchange, and its `?`
  abbrev pub started : Text ⊎ Request → M W Request
  started (inl e) = fail (internal (str "provider advertises no token endpoint: " ++ e))
  started (inr request) = pure request

  abbrev pub answered : RequestTokenError ⊎ Response → M W Response
  answered (inl e) = fail (of_exchange endpoint.debug e)
  answered (inr response) = pure response

  -- `request.request_async(http).await?`
  abbrev pub exchange : Request → M W Response
  exchange request = do r ← run (endpoint.request_async request); answered r

  abbrev pub carried : Option Text → M W Text
  carried none = fail (upstream (str "token response carried no id_token"))
  carried (some token) = pure token
