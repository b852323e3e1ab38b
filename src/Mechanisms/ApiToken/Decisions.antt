-- ===== src/Mechanisms/ApiToken/Decisions.antt =====
-- src/mechanisms/api_token.rs: the answers of the authenticator, by the credential.
use authn_kit.Prelude.{
  ℕ, ◌≡◌, ◌↔◌, ◌⊎◌, inl, inr, Bool, Option, none, some, List, ◌∷◌, ◌++◌, arith, All, Option-cases,
  ap, sym, ◌∙◌,
}
use authn_kit.Text.{Text, str}
use authn_kit.Text.Laws.{strip_prefix-append}
use authn_kit.Error.{invalid_credential}
use authn_kit.Effect.{ok, err, pure, Clock}
use authn_kit.Claims.{IdentityClaims}
use authn_kit.Credential.{bearer}
use authn_kit.Scope.{AuthScope}
use authn_kit.Outcome.{Verdict}
use authn_kit.Authenticator.{AuthContext}
use authn_kit.Cache.{CacheKey}
use authn_kit.Cache.Shared.{insert_shared}
use authn_kit.Mechanisms.Answers.{
  NeverDeclines, pure-NeverDeclines, fail-NeverDeclines, verdict_of-NeverDeclines,
  bind-NeverDeclines,
}
use authn_kit.Mechanisms.Identity.{user_of, verdict_of}
use authn_kit.Mechanisms.ApiToken.{
  StaticToken, TokenValidator, ApiTokenAuthenticator, matched, cache_ttl, validated, with_validator,
  authenticate_key, authenticate,
}
use authn_kit.Mechanisms.ApiToken.Static.{
  IsConstantTimeEq, presented_key, Opens, matched-none_iff, matched_first,
}

module _ {U Value W : Type 0} (ct_eq : List ℕ → List ℕ → Bool) (hash : Text → List ℕ)
    (clock : Clock W) (try_from : IdentityClaims Value → Text ⊎ U)
    (a : ApiTokenAuthenticator U Value W) where
  validated-NeverDeclines :
      (v : TokenValidator Value W) (scope : Option Text) (presented : Text) (k : CacheKey)
      → NeverDeclines (validated ct_eq hash clock try_from a v scope presented k)
  unfolding validated
  validated-NeverDeclines v scope presented k =
      bind-NeverDeclines (v.validate presented scope) _ λ claims.
        bind-NeverDeclines (cache_ttl clock a claims.expires_at) _ λ ttl.
          bind-NeverDeclines (user_of _ (try_from claims)) _ λ user.
            bind-NeverDeclines (insert_shared clock a.cache k user ttl) _
              λ _. pure-NeverDeclines user

  cached-NeverDeclines :
      (v : TokenValidator Value W) (scope : Option Text) (presented : Text) (k : CacheKey)
      (cached : Option U)
      → NeverDeclines {W = W} (elim cached [
        | some user ↦ pure (Verdict.authenticated user)
        | none ↦ validated ct_eq hash clock try_from a v scope presented k
      ])
  cached-NeverDeclines v scope presented k none = validated-NeverDeclines v scope presented k
  cached-NeverDeclines v scope presented k (some user) = pure-NeverDeclines user

  -- A key that carries the prefix is never declined.
  pub authenticate_key-NeverDeclines :
      (scope : Option Text) (presented : Text)
      → NeverDeclines (authenticate_key ct_eq hash clock try_from a scope presented)
  unfolding authenticate_key with_validator
  authenticate_key-NeverDeclines scope presented =
      elim (Option-cases (matched ct_eq a.tokens scope presented)) [
        | inr (t, h) ↦ rw (h, authenticate_key) (verdict_of-NeverDeclines _ (try_from t.claims))
        | inl h ↦ elim (Option-cases a.fallback) [
          | inl n ↦ rw (h, authenticate_key) (rw (n, authenticate_key) (fail-NeverDeclines _))
          | inr (v, n) ↦
              rw (h, authenticate_key)
                (rw (n, authenticate_key)
                  (bind-NeverDeclines _ _ (cached-NeverDeclines v scope presented _)))
        ]
      ]

  module _ {S : Type 0} ⦃s : AuthScope S⦄ (ctx : AuthContext S) where
    pub authenticate_unpresented :
        (w : W)
        → presented_key a.prefix ctx.credential ≡ none
        → authenticate ct_eq hash clock try_from a ctx w ≡ (ok Verdict.not_applicable, w)
    unfolding authenticate
    authenticate_unpresented w h = ground (arith, h)

    pub authenticate_presented :
        (w : W) (presented : Text)
        → presented_key a.prefix ctx.credential ≡ some presented
        → authenticate ct_eq hash clock try_from a ctx w
          ≡ authenticate_key ct_eq hash clock try_from a
              (s.cache_discriminator ctx.scope)
              presented
              w
    unfolding authenticate
    authenticate_presented w presented h = ground (arith, h)

    -- The authenticator declines exactly the requests whose credential is no bearer token with its
    -- prefix, and then it changes nothing.
    pub authenticate-declines_iff :
        (w : W)
        → (((authenticate ct_eq hash clock try_from a ctx w).0 ≡ ok Verdict.not_applicable)
            ↔ (presented_key a.prefix ctx.credential ≡ none))
          × ((presented_key a.prefix ctx.credential ≡ none)
              → (authenticate ct_eq hash clock try_from a ctx w).1 ≡ w)
    authenticate-declines_iff w =
        let declined = authenticate_unpresented w in
        (
          (
            λ h. elim (Option-cases (presented_key a.prefix ctx.credential)) [
              | inl n ↦ n
              | inr (presented, q) ↦ absurd (
                  authenticate_key-NeverDeclines _ presented w
                    (ap (λ r. r.0) (sym (authenticate_presented w presented q)) ∙ h))
            ],
            λ n. ap (λ r. r.0) (declined n),
          ),
          λ n. ap (λ r. r.1) (declined n),
        )

  module _ {S : Type 0} ⦃s : AuthScope S⦄ (law : IsConstantTimeEq ct_eq) where
    -- A bearer token that is the prefix and the secret of a static token, permitted for the scope of
    -- the request, is authenticated with the claims of the first such token of the list, in every
    -- world and without changing it: no validator, cache or clock is consulted.
    pub authenticate-static :
        (ctx : AuthContext S) (before after : List (StaticToken Value)) (t : StaticToken Value)
        (presented : Text) (w : W)
        → ctx.credential ≡ bearer (a.prefix ++ presented)
        → a.tokens ≡ before ++ t ∷ after
        → All (λ other. ¬ Opens ct_eq law (s.cache_discriminator ctx.scope) presented other) before
        → Opens ct_eq law (s.cache_discriminator ctx.scope) presented t
        → authenticate ct_eq hash clock try_from a ctx w
          ≡ verdict_of (str "static token principal could not be converted") (try_from t.claims) w
    unfolding authenticate_key
    authenticate-static ctx before after t presented w c l others o =
        let scope = s.cache_discriminator ctx.scope in
        let shown : presented_key a.prefix ctx.credential ≡ some presented =
          rw c (strip_prefix-append a.prefix presented) in
        let found : matched ct_eq a.tokens scope presented ≡ some t =
          rw l (matched_first ct_eq law before after scope presented t others o) in
        authenticate_presented ctx w presented shown ∙ rw (found, authenticate_key)

    -- Without a validator a bearer token with the prefix that is no static token permitted for the
    -- scope is an invalid credential, in every world and without changing it.
    pub authenticate-unknown :
        (ctx : AuthContext S) (presented : Text) (w : W)
        → ctx.credential ≡ bearer (a.prefix ++ presented)
        → a.fallback ≡ none
        → All
            (λ other. ¬ Opens ct_eq law (s.cache_discriminator ctx.scope) presented other)
            a.tokens
        → authenticate ct_eq hash clock try_from a ctx w ≡ (
          err (
              invalid_credential
                (str "no static token matches the presented api key for this scope")),
          w,
        )
    unfolding authenticate_key
    authenticate-unknown ctx presented w c f others =
        let shown : presented_key a.prefix ctx.credential ≡ some presented =
          rw c (strip_prefix-append a.prefix presented) in
        let missed =
          (matched-none_iff ct_eq law a.tokens (s.cache_discriminator ctx.scope) presented).1
            others in
        authenticate_presented ctx w presented shown
        ∙ rw (missed, authenticate_key) (rw (f, authenticate_key))
