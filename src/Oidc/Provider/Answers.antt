-- ===== src/Oidc/Provider/Answers.antt =====
-- src/oidc/provider.rs: the verification of a token never answers with a redirect.
use authn_kit.Prelude.{◌≡◌, ◌⊎◌, inl, inr, refl, false, not, ◌==◌}
use authn_kit.Text.{Text}
use authn_kit.Effect.{Clock}
use authn_kit.Effect.Redirects.{is_redirect, redirects, if-redirects, bind-redirects}
use authn_kit.Oidc.Error.{
  DiscoveryError, SignatureVerificationError, ClaimsVerificationError, of_discovery,
  of_verification, is_possibly_stale_keys,
}
use authn_kit.Oidc.Claims.{IdTokenClaims}
use authn_kit.Oidc.Provider.{
  NonceCheck, Library, Snapshot, OidcProvider, discovered, fetch_state, fetch_and_store, is_fresh,
  store, refresh_locked, refresh, parsed, accepted, after_first, verify_id_token,
}

of_discovery-redirect : (e : DiscoveryError) → is_redirect (of_discovery e) ≡ false
unfolding of_discovery
of_discovery-redirect (DiscoveryError.url_parse e) = refl
of_discovery-redirect (DiscoveryError.parse e) = refl
of_discovery-redirect (DiscoveryError.request e) = refl
of_discovery-redirect (DiscoveryError.response status e) = refl
of_discovery-redirect (DiscoveryError.validation e) = refl
of_discovery-redirect (DiscoveryError.other e) = refl

of_verification-redirect :
    (show : SignatureVerificationError → Text) (e : ClaimsVerificationError)
    → is_redirect (of_verification show e) ≡ false
unfolding of_verification
of_verification-redirect show (ClaimsVerificationError.expired e) = refl
of_verification-redirect show (ClaimsVerificationError.invalid_audience e) = refl
of_verification-redirect show (ClaimsVerificationError.invalid_issuer e) = refl
of_verification-redirect show (ClaimsVerificationError.invalid_nonce e) = refl
of_verification-redirect show (ClaimsVerificationError.invalid_auth_time e) = refl
of_verification-redirect show (ClaimsVerificationError.signature_verification e) = refl
of_verification-redirect show (ClaimsVerificationError.unsupported e) = refl
of_verification-redirect show (ClaimsVerificationError.other e) = refl

module _ {Metadata Client IdToken Value W : Type 0}
    (library : Library Metadata Client IdToken Value W) (clock : Clock W)
    (p : OidcProvider Metadata Client W) where
  discovered-redirects :
      (found : DiscoveryError ⊎ Metadata) (w : W)
      → redirects (discovered library clock found w).0 ≡ false
  discovered-redirects (inl e) w = of_discovery-redirect e
  discovered-redirects (inr metadata) w = refl

  fetch_state-redirects : (w : W) → redirects (fetch_state library clock p.config w).0 ≡ false
  unfolding fetch_state
  fetch_state-redirects w =
      let (found, v) = library.discover p.config.issuer_url w in
      bind-redirects (discovered library clock found) _ v (discovered-redirects found v)
        (λ metadata v'. refl)

  fetch_and_store-redirects :
      (current : Snapshot Metadata Client) (w : W)
      → redirects (fetch_and_store library clock p current w).0 ≡ false
  unfolding fetch_and_store
  fetch_and_store-redirects current w =
      bind-redirects (fetch_state library clock p.config) _ w (fetch_state-redirects w)
        (λ state v. unfold store in refl)

  refresh_locked-redirects :
      (observed : Snapshot Metadata Client) (w : W)
      → redirects (refresh_locked library clock p observed w).0 ≡ false
  unfolding refresh_locked
  refresh_locked-redirects observed w =
      let current = p.state.load w in
      let (now, v) = clock.instant_now w in
      if-redirects (not (observed.address == current.address)) _ _ w refl (
        if-redirects (is_fresh library clock p current now) _ _ v refl
          (fetch_and_store-redirects current v))

  refresh-redirects : (w : W) → redirects (refresh library clock p w).0 ≡ false
  unfolding refresh
  refresh-redirects w =
      let observed = p.state.load w in
      let (now, v) = clock.instant_now w in
      if-redirects (is_fresh library clock p observed now) _ _ v refl
        (refresh_locked-redirects observed (p.wait v))

  accepted-redirects :
      (r : ClaimsVerificationError ⊎ IdTokenClaims Value) (w : W)
      → redirects (accepted library clock p r w).0 ≡ false
  accepted-redirects (inl e) w = of_verification-redirect library.show e
  accepted-redirects (inr claims) w = refl

  after_first-redirects :
      (nonce : NonceCheck) (token : IdToken) (r : ClaimsVerificationError ⊎ IdTokenClaims Value)
      (w : W)
      → redirects (after_first library clock p nonce token r w).0 ≡ false
  unfolding after_first
  after_first-redirects nonce token (inr claims) w = refl
  after_first-redirects nonce token (inl e) w =
      if-redirects (is_possibly_stale_keys e) _ _ w
        (bind-redirects (refresh library clock p) _ w (refresh-redirects w)
          (λ done v. accepted-redirects _ _))
        (of_verification-redirect library.show e)

  parsed-redirects : (r : Text ⊎ IdToken) (w : W) → redirects (parsed library clock p r w).0 ≡ false
  parsed-redirects (inl e) w = refl
  parsed-redirects (inr token) w = refl

  -- A token that is not accepted gives an error that is no redirect.
  pub verify_id_token-redirects :
      (text : Text) (nonce : NonceCheck) (w : W)
      → redirects (verify_id_token library clock p text nonce w).0 ≡ false
  unfolding verify_id_token
  verify_id_token-redirects text nonce w =
      bind-redirects (parsed library clock p (library.parse text)) _ w
        (parsed-redirects (library.parse text) w) (λ token v. after_first-redirects nonce token _ _)
