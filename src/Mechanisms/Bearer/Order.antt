-- ===== src/Mechanisms/Bearer/Order.antt =====
-- src/mechanisms/bearer.rs: what the authenticator claims, and its place beside the api tokens.
use authn_kit.Prelude.{
  ℕ, ◌≡◌, ◌↔◌, ◌⊎◌, inl, inr, refl, Bool, true, false, none, List, ◌∷◌, ◌++◌, arith, Bool-cases, ap,
  sym, ◌∙◌,
}
use mathlib.Core.Bool.{false≢true}
use authn_kit.Text.{Text}
use authn_kit.Effect.{ok, Clock}
use authn_kit.Claims.{IdentityClaims}
use authn_kit.Credential.{Credential, bearer}
use authn_kit.Scope.{AuthScope}
use authn_kit.Outcome.{Verdict}
use authn_kit.Authenticator.{AuthContext, Authenticator, consult}
use authn_kit.Authenticator.Decides.{AlwaysDeclines, consult-swap}
use authn_kit.Oidc.Provider.{Library, OidcProvider, present, verify_id_token}
use authn_kit.Mechanisms.Answers.{NeverDeclines, verdict_of-NeverDeclines, bind-NeverDeclines}
use authn_kit.Mechanisms.ApiToken.{ApiTokenAuthenticator, api_token}
use authn_kit.Mechanisms.ApiToken.Static.{presented_key}
use authn_kit.Mechanisms.ApiToken.Decisions.{authenticate_unpresented}
use authn_kit.Mechanisms.Bearer.{is_compact_jws, verify_bearer, authenticate, bearer_authenticator}
use authn_kit.Mechanisms.Bearer.Jws.{IsJws, is_compact_jws_iff}

-- The credential is a bearer token that is a compact JWS.
abbrev pub PresentsJws : Credential → Type 0
PresentsJws (bearer token) = IsJws token
PresentsJws _ = ⊥

-- the test that the authenticator makes
abbrev presents_jws : Credential → Bool
presents_jws (bearer token) = is_compact_jws token
presents_jws _ = false

presents_jws_iff : (c : Credential) → (presents_jws c ≡ true) ↔ PresentsJws c
presents_jws_iff (bearer token) = is_compact_jws_iff token
presents_jws_iff _ = (λ h. cc, λ h. elim h [ ])

presented :
    (c : Credential)
    → presents_jws c ≡ true
    → (token : Text) × (c ≡ bearer token) × (is_compact_jws token ≡ true)
presented (bearer token) h = (token, refl, h)
presented _ h = cc

module _ {Metadata Client IdToken Value U S W : Type 0}
    (library : Library Metadata Client IdToken Value W) (clock : Clock W)
    (try_from : IdentityClaims Value → Text ⊎ U) (provider : OidcProvider Metadata Client W)
    (ctx : AuthContext S) where
  unclaimed :
      presents_jws ctx.credential ≡ false
      → AlwaysDeclines ctx (bearer_authenticator library clock try_from provider)
  unfolding bearer_authenticator
  unclaimed h w = ground (arith, h)

  verified :
      (token : Text) (w : W)
      → ctx.credential ≡ bearer token
      → is_compact_jws token ≡ true
      → authenticate library clock try_from provider ctx w
        ≡ verify_bearer library clock try_from provider token w
  unfolding authenticate
  verified token w c h = ground (arith, c, h)

  verify_bearer-NeverDeclines :
      (token : Text) → NeverDeclines (verify_bearer library clock try_from provider token)
  unfolding verify_bearer
  verify_bearer-NeverDeclines token =
      bind-NeverDeclines (verify_id_token library clock provider token present) _
        λ claims. verdict_of-NeverDeclines _ (try_from claims)

  claimed :
      presents_jws ctx.credential ≡ true
      → NeverDeclines (authenticate library clock try_from provider ctx)
  claimed h w e =
      let (token, c, j) = presented ctx.credential h in
      verify_bearer-NeverDeclines token w (ap (λ r. r.0) (sym (verified token w c j)) ∙ e)

  -- The authenticator declines exactly the requests whose credential is no bearer token that is a
  -- compact JWS, and then it changes nothing.
  pub authenticate-declines_jws_iff :
      (w : W)
      → (((authenticate library clock try_from provider ctx w).0 ≡ ok Verdict.not_applicable)
          ↔ (¬ PresentsJws ctx.credential))
        × ((¬ PresentsJws ctx.credential)
            → (authenticate library clock try_from provider ctx w).1 ≡ w)
  unfolding bearer_authenticator
  authenticate-declines_jws_iff w = elim (Bool-cases (presents_jws ctx.credential)) [
    | inl h ↦
        let j = (presents_jws_iff ctx.credential).0 h in
        ((λ e. absurd (claimed h w e), λ n. absurd (n j)), λ n. absurd (n j))
    | inr h ↦ (
      (
        λ _ j. false≢true (sym h ∙ (presents_jws_iff ctx.credential).1 j),
        λ _. ap (λ r. r.0) (unclaimed h w),
      ),
      λ _. ap (λ r. r.1) (unclaimed h w),
    )
  ]

module _ {Metadata Client IdToken Value U S W : Type 0} ⦃s : AuthScope S⦄
    (library : Library Metadata Client IdToken Value W) (clock : Clock W)
    (try_from : IdentityClaims Value → Text ⊎ U) (provider : OidcProvider Metadata Client W)
    (ct_eq : List ℕ → List ℕ → Bool) (hash : Text → List ℕ)
    (a : ApiTokenAuthenticator U Value W) where
  -- The order of this authenticator and of the one for api tokens, side by side in a chain, changes
  -- neither the outcome nor the world, unless the credential is a compact JWS that also begins with
  -- the prefix of the api tokens.
  pub consult-order :
      (is_public : Bool) (ctx : AuthContext S) (before after : List (Authenticator U S W))
      → (presented_key a.prefix ctx.credential ≡ none) ⊎ (¬ PresentsJws ctx.credential)
      → consult is_public ctx (
          before
          ++ api_token ct_eq hash clock try_from a
            ∷ bearer_authenticator library clock try_from provider
            ∷ after)
        ≡ consult is_public ctx (
            before
            ++ bearer_authenticator library clock try_from provider
              ∷ api_token ct_eq hash clock try_from a
              ∷ after)
  unfolding api_token
  consult-order is_public ctx before after (inl n) =
      consult-swap is_public ctx before after _ _
        (inl (λ w. authenticate_unpresented ct_eq hash clock try_from a ctx w n))
  consult-order is_public ctx before after (inr n) = consult-swap is_public ctx before after _ _ (
      inr (
        unclaimed library clock try_from provider ctx
          (ground (arith, n, presents_jws_iff ctx.credential))))
