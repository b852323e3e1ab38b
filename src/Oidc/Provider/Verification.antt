-- ===== src/Oidc/Provider/Verification.antt =====
-- src/oidc/provider.rs: what an accepted ID token has passed.
use authn_kit.Prelude.{◌≡◌, ◌↔◌, ◌⊎◌, inl, inr, refl, true, arith, Bool-cases, sym, subst, ap, ◌∙◌}
use authn_kit.Text.{Text}
use authn_kit.Effect.{ok, Clock}
use authn_kit.Effect.Laws.{bind-ok, ok-bind}
use authn_kit.Claims.{IdentityClaims}
use authn_kit.Oidc.Error.{ClaimsVerificationError, is_possibly_stale_keys}
use authn_kit.Oidc.Claims.{IdTokenClaims, identity_from_id_token_claims}
use authn_kit.Oidc.Provider.{
  NonceCheck, Library, OidcProvider, nonce_verifier, refresh, parsed, accepted, after_first,
  verify_id_token,
}

module _ {Metadata Client IdToken Value W : Type 0}
    (library : Library Metadata Client IdToken Value W) (clock : Clock W)
    (p : OidcProvider Metadata Client W) where
  -- the verification of a token under the keys of the snapshot of a world
  abbrev pub attempt :
      NonceCheck → IdToken → W → (ClaimsVerificationError ⊎ IdTokenClaims Value) × W
  attempt nonce token w =
      library.claims (p.state.load w).state.client (nonce_verifier nonce) token w

  -- The first answer was `r`, an error that stale keys would explain; a refresh, which starts in the
  -- world `w`, succeeded, and the token was accepted under the keys at hand then.
  abbrev pub Retried :
      NonceCheck
      → IdToken
      → ClaimsVerificationError ⊎ IdTokenClaims Value
      → W
      → IdTokenClaims Value
      → Type 0
  Retried nonce token r w claims =
      (e : ClaimsVerificationError) × (r ≡ inl e)
      × (is_possibly_stale_keys e ≡ true)
      × ((refresh library clock p w).0 ≡ ok tt)
      × ((attempt nonce token (refresh library clock p w).1).0 ≡ inr claims)

  -- The token was accepted under the keys that were at hand, or after a refresh.
  abbrev pub Accepted : NonceCheck → IdToken → W → IdTokenClaims Value → Type 0
  Accepted nonce token w claims =
      ((attempt nonce token w).0 ≡ inr claims)
      ⊎ Retried nonce token (attempt nonce token w).0 (attempt nonce token w).1 claims

  -- A token of this text is accepted, and the identity is that of its claims.
  abbrev pub Verified : Text → NonceCheck → W → IdentityClaims Value → Type 0
  Verified text nonce w i =
      (token : IdToken) × (claims : IdTokenClaims Value) × (library.parse text ≡ inr token)
      × Accepted nonce token w claims
      × (i ≡ identity_from_id_token_claims claims)

  parsed-ok :
      (r : Text ⊎ IdToken) (token : IdToken) (w : W)
      → (parsed library clock p r w).0 ≡ ok token
      → (r ≡ inr token) × ((parsed library clock p r w).1 ≡ w)
  parsed-ok (inl e) token w h = cc
  parsed-ok (inr t) token w h = (cc h, refl)

  accepted-ok :
      (r : ClaimsVerificationError ⊎ IdTokenClaims Value) (i : IdentityClaims Value) (w : W)
      → (accepted library clock p r w).0 ≡ ok i
      → (c : IdTokenClaims Value) × (r ≡ inr c) × (i ≡ identity_from_id_token_claims c)
  accepted-ok (inl e) i w h = cc
  accepted-ok (inr c) i w h = (c, refl, cc h)

  after_refresh-ok :
      (nonce : NonceCheck) (token : IdToken) (e : ClaimsVerificationError)
      (i : IdentityClaims Value) (w : W)
      → is_possibly_stale_keys e ≡ true
      → (after_first library clock p nonce token (inl e) w).0 ≡ ok i
      → (c : IdTokenClaims Value) × Retried nonce token (inl e) w c
        × (i ≡ identity_from_id_token_claims c)
  unfolding after_first
  after_refresh-ok nonce token e i w b h =
      let retried = rw (b, after_first) at h in
      let (done, refreshed, again) = bind-ok (refresh library clock p) _ w (i) retried in
      let (c, accept, named) = accepted-ok _ i _ again in
      (c, (e, refl, b, refreshed, accept), named)

  after_first-ok :
      (nonce : NonceCheck) (token : IdToken) (r : ClaimsVerificationError ⊎ IdTokenClaims Value)
      (i : IdentityClaims Value) (w : W)
      → (after_first library clock p nonce token r w).0 ≡ ok i
      → (c : IdTokenClaims Value) × ((r ≡ inr c) ⊎ Retried nonce token r w c)
        × (i ≡ identity_from_id_token_claims c)
  unfolding after_first
  after_first-ok nonce token (inr c) i w h = (c, inl refl, cc h)
  after_first-ok nonce token (inl e) i w h = elim (Bool-cases (is_possibly_stale_keys e)) [
    | inr b ↦ absurd (ground (arith, b, h))
    | inl b ↦ let (c, r, n) = after_refresh-ok nonce token e i w b h in (c, inr r, n)
  ]

  verify_id_token-ok :
      (text : Text) (nonce : NonceCheck) (w : W) (i : IdentityClaims Value)
      → (verify_id_token library clock p text nonce w).0 ≡ ok i
      → Verified text nonce w i
  unfolding verify_id_token
  verify_id_token-ok text nonce w i h =
      let (token, found, rest) = bind-ok (parsed library clock p (library.parse text)) _ w i h in
      let (parses, stays) = parsed-ok (library.parse text) token w found in
      let decided = rw stays at rest in
      let first = attempt nonce token w in
      let (claims, accept, named) = after_first-ok nonce token first.0 i first.1 decided in
      (token, claims, parses, accept, named)

  after_refresh :
      (nonce : NonceCheck) (token : IdToken) (e : ClaimsVerificationError)
      (claims : IdTokenClaims Value) (w : W)
      → is_possibly_stale_keys e ≡ true
      → (refresh library clock p w).0 ≡ ok tt
      → (attempt nonce token (refresh library clock p w).1).0 ≡ inr claims
      → (after_first library clock p nonce token (inl e) w).0
        ≡ ok (identity_from_id_token_claims claims)
  unfolding after_first
  after_refresh nonce token e claims w b done h =
      rw (b, after_first) (rw (ok-bind (refresh library clock p) _ w tt done) (rw h))

  after_first-Accepted :
      (nonce : NonceCheck) (token : IdToken) (r : ClaimsVerificationError ⊎ IdTokenClaims Value)
      (claims : IdTokenClaims Value) (w : W)
      → (r ≡ inr claims) ⊎ Retried nonce token r w claims
      → (after_first library clock p nonce token r w).0 ≡ ok (identity_from_id_token_claims claims)
  unfolding after_first
  after_first-Accepted nonce token r claims w (inl h) = rw (h, after_first)
  after_first-Accepted nonce token r claims w (inr (e, h, b, done, again)) =
      subst
        (λ x.
          (after_first library clock p nonce token x w).0
          ≡ ok (identity_from_id_token_claims claims))
        (sym h) (after_refresh nonce token e claims w b done again)

  Verified-ok :
      (text : Text) (nonce : NonceCheck) (w : W) (i : IdentityClaims Value)
      → Verified text nonce w i
      → (verify_id_token library clock p text nonce w).0 ≡ ok i
  unfolding verify_id_token
  Verified-ok text nonce w i (token, claims, parses, accept, named) =
      let first = attempt nonce token w in
      rw (parses, verify_id_token)
        (after_first-Accepted nonce token first.0 claims first.1 accept ∙ ap ok (sym named))

  -- A token is accepted exactly if it parses and there are claims that pass the verification with the
  -- required nonce under the keys at hand; or the keys could be stale, their refresh succeeds, and
  -- the claims pass under the keys at hand then. The identity is that of the claims.
  pub verify_id_token-Verified :
      (text : Text) (nonce : NonceCheck) (w : W) (i : IdentityClaims Value)
      → ((verify_id_token library clock p text nonce w).0 ≡ ok i) ↔ Verified text nonce w i
  verify_id_token-Verified text nonce w i =
      (verify_id_token-ok text nonce w i, Verified-ok text nonce w i)
