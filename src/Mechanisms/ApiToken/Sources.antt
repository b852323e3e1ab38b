-- ===== src/Mechanisms/ApiToken/Sources.antt =====
-- src/mechanisms/api_token.rs: where the users come from that the authenticator authenticates.
use authn_kit.Prelude.{
  ℕ, ◌<◌, ◌≡◌, ◌⊎◌, inl, inr, Bool, Option, some, List, ◌∷◌, ◌++◌, Option-cases, ap, sym, ◌∙◌,
}
use authn_kit.Text.{Text}
use authn_kit.Effect.{ok, Clock}
use authn_kit.Claims.{IdentityClaims}
use authn_kit.Scope.{AuthScope}
use authn_kit.Outcome.{Verdict}
use authn_kit.Map.{lookup}
use authn_kit.Cache.{Entry, key_Eq}
use authn_kit.Authenticator.{AuthContext}
use authn_kit.Mechanisms.Identity.{verdict_of-ok}
use authn_kit.Mechanisms.ApiToken.{
  StaticToken, TokenValidator, ApiTokenAuthenticator, matched, authenticate_key, authenticate,
}
use authn_kit.Mechanisms.ApiToken.Static.{IsConstantTimeEq, presented_key, Opens, matched-some}
use authn_kit.Mechanisms.ApiToken.Fallback.{cache_key, authenticate_key_sound}
use authn_kit.Mechanisms.ApiToken.Decisions.{authenticate_presented, authenticate_unpresented}

module _ {U Value W : Type 0} (ct_eq : List ℕ → List ℕ → Bool) (hash : Text → List ℕ)
    (clock : Clock W) (try_from : IdentityClaims Value → Text ⊎ U)
    (a : ApiTokenAuthenticator U Value W) (law : IsConstantTimeEq ct_eq) (scope : Option Text)
    (presented : Text) where
  -- a static token of the list that the key opens and whose claims convert to the user
  abbrev pub IsStatic : U → Type 0
  IsStatic u =
      (t : StaticToken Value) × (before after : List (StaticToken Value)) × (a.tokens
        ≡ before ++ t ∷ after)
      × Opens ct_eq law scope presented t
      × (try_from t.claims ≡ inr u)

  -- An entry of the cache for this very scope, validator and key, which has not expired at the
  -- reading of the clock in the world `w`.
  abbrev pub IsCached : TokenValidator Value W → W → U → Type 0
  IsCached v w u =
      (e : Entry U) × (lookup (cache_key ct_eq hash clock try_from a v scope presented)
          (a.cache.load w).entries
        ≡ some e)
      × (e.value ≡ u)
      × ((clock.instant_now w).0 < e.expires_at)

  -- claims that the validator answers, and that convert to the user
  abbrev pub IsValidated : TokenValidator Value W → U → Type 0
  IsValidated v u =
      (w : W) × (claims : IdentityClaims Value) × ((v.validate presented scope w).0 ≡ ok claims)
      × (try_from claims ≡ inr u)

  -- where the user of a key comes from
  abbrev pub IsKeyOf : W → U → Type 0
  IsKeyOf w u =
      IsStatic u
      ⊎ ((v : TokenValidator Value W) × (a.fallback ≡ some v) × (IsCached v w u ⊎ IsValidated v u))

  authenticate_key-IsKeyOf :
      (w : W) (u : U)
      → (authenticate_key ct_eq hash clock try_from a scope presented w).0
        ≡ ok (Verdict.authenticated u)
      → IsKeyOf w u
  unfolding authenticate_key
  authenticate_key-IsKeyOf w u h = elim (Option-cases (matched ct_eq a.tokens scope presented)) [
    | inr (t, m) ↦
        let (user, converts, same) =
          verdict_of-ok _ (try_from t.claims) w _ (rw (m, authenticate_key) at h) in
        let named : u ≡ user = cc same in
        let (opens, before, after, listed, _) =
          matched-some ct_eq law a.tokens scope presented t m in
        inl (t, before, after, listed, opens, converts ∙ ap inr (sym named))
    | inl m ↦ elim (Option-cases a.fallback) [
      | inr (v, f) ↦
          inr (v, f, authenticate_key_sound ct_eq hash clock try_from a v scope presented w u m f h)
      | inl f ↦ absurd (cc (rw (f, authenticate_key) at (rw (m, authenticate_key) at h)))
    ]
  ]

module _ {U Value S W : Type 0} ⦃s : AuthScope S⦄ (ct_eq : List ℕ → List ℕ → Bool)
    (hash : Text → List ℕ) (clock : Clock W) (try_from : IdentityClaims Value → Text ⊎ U)
    (a : ApiTokenAuthenticator U Value W) (law : IsConstantTimeEq ct_eq) (ctx : AuthContext S) where
  -- The credential presents a key with the prefix, and the user is that of the key.
  abbrev pub HasKey : W → U → Type 0
  HasKey w u =
      (presented : Text) × (presented_key a.prefix ctx.credential ≡ some presented)
      × IsKeyOf ct_eq hash clock try_from a law (s.cache_discriminator ctx.scope) presented w u

  -- A user is authenticated only if the credential is a bearer token of the prefix and a key, and the
  -- key is a static token permitted for the scope whose claims convert to the user; or there is a
  -- validator, and the cache has an entry of the user for this very scope, validator and key that has
  -- not expired, or the validator accepts the key for this scope, with claims that convert to the user.
  pub authenticate-HasKey :
      (w : W) (u : U)
      → (authenticate ct_eq hash clock try_from a ctx w).0 ≡ ok (Verdict.authenticated u)
      → HasKey w u
  authenticate-HasKey w u h = elim (Option-cases (presented_key a.prefix ctx.credential)) [
    | inl n ↦ absurd (
        cc (ap (λ r. r.0) (sym (authenticate_unpresented ct_eq hash clock try_from a ctx w n)) ∙ h))
    | inr (presented, q) ↦ (
      presented,
      q,
      authenticate_key-IsKeyOf ct_eq hash clock try_from a law _ presented w u (
          ap (λ r. r.0) (sym (authenticate_presented ct_eq hash clock try_from a ctx w presented q))
          ∙ h),
    )
  ]
