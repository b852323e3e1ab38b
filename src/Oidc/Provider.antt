-- ===== src/Oidc/Provider.antt =====
-- src/oidc/provider.rs: the discovered provider, its refresh, and the verification of ID tokens. The
-- `Arc` of a snapshot is its number: each `store` makes a new one. `openidconnect` is a parameter.
pub mod Verification
pub mod Answers
pub mod Flight
use authn_kit.Prelude.{
  ℕ, suc, ◌+◌, ◌-◌, Bool, true, false, not, ◌||◌, ◌⊎◌, inl, inr, Option, none, some, ltb, ◌==◌,
  if◌then◌else◌, ◌++◌,
}
use authn_kit.Text.{Text, str}
use authn_kit.Error.{AuthError, invalid_credential, internal}
use authn_kit.Effect.{Result, ok, M, pure, fail, run, read, write, ◌>>=◌, ◌>>◌, Cell, Clock}
use authn_kit.Claims.{IdentityClaims}
use authn_kit.Oidc.Error.{
  DiscoveryError, SignatureVerificationError, ClaimsVerificationError, of_discovery,
  of_verification, is_possibly_stale_keys,
}
use authn_kit.Oidc.Config.{OidcConfig}
use authn_kit.Oidc.Claims.{IdTokenClaims, identity_from_id_token_claims}

pub data NonceCheck : Type 0 where
  matches : Text → NonceCheck
  present : NonceCheck
  skip : NonceCheck

-- What a `NonceVerifier` of `openidconnect` is here: a nonce to be equal to, or a function.
pub data NonceVerifier : Type 0 where
  equal_to : Text → NonceVerifier
  function : (Option Text → Text ⊎ Unit {0}) → NonceVerifier

-- `openidconnect`: discovery, the client and its verifier, which reads the clock, and ID tokens.
pub record Library (Metadata Client IdToken Value W : Type 0) : Type 0 where
  pub discover : Text → W → (DiscoveryError ⊎ Metadata) × W
  pub from_provider_metadata : Metadata → Text → Option Text → Client
  pub set_redirect_uri : Text → Client → Client
  pub parse : Text → Text ⊎ IdToken
  pub claims :
      Client → NonceVerifier → IdToken → W → (ClaimsVerificationError ⊎ IdTokenClaims Value) × W
  pub show : SignatureVerificationError → Text

pub record ProviderState (Metadata Client : Type 0) : Type 0 where
  pub metadata : Metadata
  pub client : Client
  pub fetched_at : ℕ

-- an `Arc<ProviderState>`
pub record Snapshot (Metadata Client : Type 0) : Type 0 where
  pub address : ℕ
  pub state : ProviderState Metadata Client

-- `wait` is what happens in the world until the refresh lock is taken.
pub record OidcProvider (Metadata Client W : Type 0) : Type 0 where
  pub config : OidcConfig
  pub state : Cell W (Snapshot Metadata Client)
  pub wait : W → W

unfoldable pub require_nonce_present : Option Text → Text ⊎ Unit {0}
require_nonce_present none = inl (str "missing nonce claim")
require_nonce_present (some _) = inr tt

unfoldable pub skip_nonce_check : Option Text → Text ⊎ Unit {0}
skip_nonce_check _ = inr tt

unfoldable pub nonce_verifier : NonceCheck → NonceVerifier
unfolding require_nonce_present skip_nonce_check
nonce_verifier (matches expected) = equal_to expected
nonce_verifier present = function require_nonce_present
nonce_verifier skip = function skip_nonce_check

module _ {Metadata Client IdToken Value W : Type 0}
    (library : Library Metadata Client IdToken Value W) (clock : Clock W) where
  unfoldable pub build_client : Metadata → Text → Option Text → Text → Client
  build_client metadata client_id client_secret redirect_url =
      library.set_redirect_uri redirect_url
        (library.from_provider_metadata metadata client_id client_secret)

  abbrev pub discovered : DiscoveryError ⊎ Metadata → M W Metadata
  discovered (inl e) = fail (of_discovery e)
  discovered (inr metadata) = pure metadata

  unfoldable pub fetch_state : OidcConfig → M W (ProviderState Metadata Client)
  unfolding build_client
  fetch_state config = do
    found ← run (library.discover config.issuer_url)
    metadata ← discovered found
    now ← run clock.instant_now
    pure (record {
      metadata = metadata;
      client = build_client metadata config.client_id config.client_secret config.redirect_url;
      fetched_at = now;
    })

  -- The outcome of `reqwest::ClientBuilder::build` is a parameter, with an error's message. `cell` is
  -- the place of the new provider's snapshot, and `wait` how its lock is waited for.
  abbrev built : Text ⊎ Unit {0} → M W (Unit {0})
  built (inl e) = fail (internal (str "could not build http client: " ++ e))
  built (inr http) = pure http

  unfoldable pub discover :
      Text ⊎ Unit {0}
      → Cell W (Snapshot Metadata Client)
      → (W → W)
      → OidcConfig
      → M W (OidcProvider Metadata Client W)
  unfolding fetch_state
  discover http cell wait config = do
    built http
    state ← fetch_state config
    write cell (record { address = 0; state = state })
    pure (record { config = config; state = cell; wait = wait })

  abbrev pub verify :
      Client → NonceCheck → IdToken → M W (ClaimsVerificationError ⊎ IdTokenClaims Value)
  verify client nonce token = run (library.claims client (nonce_verifier nonce) token)

  module _ (p : OidcProvider Metadata Client W) where
    abbrev pub snapshot : M W (Snapshot Metadata Client)
    snapshot = read p.state

    unfoldable pub machine_client : Text → Text → M W Client
    unfolding build_client
    machine_client client_id client_secret = do
      current ← snapshot
      pure
          (build_client current.state.metadata client_id (some client_secret) p.config.redirect_url)

    -- `age() < min_refresh_interval`, where `elapsed` stops at zero
    unfoldable pub is_fresh : Snapshot Metadata Client → ℕ → Bool
    is_fresh s now = ltb (now - s.state.fetched_at) p.config.min_refresh_interval

    -- `Self::store`, which makes a new `Arc`
    unfoldable pub store : Snapshot Metadata Client → ProviderState Metadata Client → M W (Unit {0})
    store current state = write p.state (record { address = suc current.address; state = state })

    unfoldable pub fetch_and_store : Snapshot Metadata Client → M W (Unit {0})
    unfolding store
    fetch_and_store current = do state ← fetch_state p.config; store current state

    -- what follows the lock; the clock is read only for the snapshot that was observed
    unfoldable pub refresh_locked : Snapshot Metadata Client → M W (Unit {0})
    unfolding is_fresh fetch_and_store
    refresh_locked observed = do
      current ← snapshot
      if not (observed.address == current.address) then pure tt else do
        now ← run clock.instant_now
        if is_fresh current now then pure tt else fetch_and_store current

    unfoldable pub refresh : M W (Unit {0})
    unfolding is_fresh refresh_locked
    refresh = do
      observed ← snapshot
      now ← run clock.instant_now
      if is_fresh observed now
          then pure tt
          else do run (λ w. (tt {0}, p.wait w)); refresh_locked observed

    abbrev pub parsed : Text ⊎ IdToken → M W IdToken
    parsed (inl e) = fail (invalid_credential (str "malformed id token: " ++ e))
    parsed (inr token) = pure token

    abbrev pub accepted : ClaimsVerificationError ⊎ IdTokenClaims Value → M W (IdentityClaims Value)
    accepted (inl e) = fail (of_verification library.show e)
    accepted (inr claims) = pure (identity_from_id_token_claims claims)

    -- what follows the first verification
    unfoldable pub after_first :
        NonceCheck
        → IdToken
        → ClaimsVerificationError ⊎ IdTokenClaims Value
        → M W (IdentityClaims Value)
    after_first nonce token (inr claims) = pure (identity_from_id_token_claims claims)
    after_first nonce token (inl e) =
        if is_possibly_stale_keys e
        then (do
          refresh
          current ← snapshot
          second ← verify current.state.client nonce token
          accepted second)
        else fail (of_verification library.show e)

    unfoldable pub verify_id_token : Text → NonceCheck → M W (IdentityClaims Value)
    unfolding after_first
    verify_id_token text nonce = do
      token ← parsed (library.parse text)
      current ← snapshot
      first ← verify current.state.client nonce token
      after_first nonce token first
