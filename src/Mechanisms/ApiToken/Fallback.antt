-- ===== src/Mechanisms/ApiToken/Fallback.antt =====
-- src/mechanisms/api_token.rs: keys that a validator decides.
use authn_kit.Prelude.{ℕ, ◌<◌, ◌≡◌, ◌⊎◌, inl, inr, Bool, Option, none, some, List, [], ◌∙◌, ap}
use authn_kit.Text.{Text}
use authn_kit.Effect.{ok, M, pure, Clock}
use authn_kit.Effect.Laws.{bind-ok}
use authn_kit.Claims.{IdentityClaims}
use authn_kit.Outcome.{Verdict}
use authn_kit.Map.{lookup}
use authn_kit.Cache.{CacheKey, Entry, key, key_Eq, ttl}
use authn_kit.Cache.Shared.{get_shared, insert_shared}
use authn_kit.Cache.Shared.Laws.{get_shared-some}
use authn_kit.Mechanisms.Identity.{user_of, user_of-ok}
use authn_kit.Mechanisms.ApiToken.{
  TokenValidator, ApiTokenAuthenticator, cache_ttl, matched, validated, with_validator,
  authenticate_key,
}

module _ {U Value W : Type 0} (ct_eq : List ℕ → List ℕ → Bool) (hash : Text → List ℕ)
    (clock : Clock W) (try_from : IdentityClaims Value → Text ⊎ U)
    (a : ApiTokenAuthenticator U Value W) (v : TokenValidator Value W) (scope : Option Text)
    (presented : Text) where
  -- the key of the cache under which a validated key is kept
  abbrev pub cache_key : CacheKey
  cache_key = key hash scope v.name [] presented

  pub validated-ok :
      (k : CacheKey) (w : W) (u : U)
      → (validated ct_eq hash clock try_from a v scope presented k w).0
        ≡ ok (Verdict.authenticated u)
      → (claims : IdentityClaims Value) × ((v.validate presented scope w).0 ≡ ok claims)
        × (try_from claims ≡ inr u)
  unfolding validated
  validated-ok k w u h =
      let (claims, valid, after_valid) = bind-ok (v.validate presented scope) _ w _ h in
      let (ttl, _, after_ttl) = bind-ok (cache_ttl clock a claims.expires_at) _ _ _ after_valid in
      let (user, conversion, after_user) = bind-ok (user_of _ (try_from claims)) _ _ _ after_ttl in
      let (_, _, done) = bind-ok (insert_shared clock a.cache k user ttl) _ _ _ after_user in
      let same : user ≡ u = cc done in
      (claims, valid, user_of-ok _ (try_from claims) _ user conversion ∙ ap inr same)

  -- what follows the cache's answer
  after_lookup :
      (w : W) (u : U) (cached : Option U)
      → (get_shared clock a.cache cache_key w).0 ≡ ok cached
      → (let next : M W (Verdict U) = elim cached [
        | some user ↦ pure (Verdict.authenticated user)
        | none ↦ validated ct_eq hash clock try_from a v scope presented cache_key
      ] in
          (next (get_shared clock a.cache cache_key w).1).0 ≡ ok (Verdict.authenticated u))
      → ((e : Entry U) × (lookup cache_key (a.cache.load w).entries ≡ some e)
          × (e.value ≡ u)
          × ((clock.instant_now w).0 < e.expires_at))
        ⊎ ((w' : W) × (claims : IdentityClaims Value) × ((v.validate presented scope w').0
              ≡ ok claims)
            × (try_from claims ≡ inr u))
  after_lookup w u none found rest =
      let (claims, valid, conversion) = validated-ok cache_key _ u rest in
      inr ((get_shared clock a.cache cache_key w).1, claims, valid, conversion)
  after_lookup w u (some x) found rest =
      let same : x ≡ u = cc rest in
      inl (get_shared-some clock a.cache cache_key w u (found ∙ λ i. ok (some (same i))))

  -- Where no static token is matched, a user is authenticated only if an entry for this very scope,
  -- validator and key has not expired at the reading of the clock, or the validator accepts the key
  -- for this scope now and its claims convert to the user.
  pub authenticate_key_sound :
      (w : W) (u : U)
      → matched ct_eq a.tokens scope presented ≡ none
      → a.fallback ≡ some v
      → (authenticate_key ct_eq hash clock try_from a scope presented w).0
        ≡ ok (Verdict.authenticated u)
      → ((e : Entry U) × (lookup cache_key (a.cache.load w).entries ≡ some e)
          × (e.value ≡ u)
          × ((clock.instant_now w).0 < e.expires_at))
        ⊎ ((w' : W) × (claims : IdentityClaims Value) × ((v.validate presented scope w').0
              ≡ ok claims)
            × (try_from claims ≡ inr u))
  unfolding authenticate_key with_validator
  authenticate_key_sound w u m f h =
      let decided : (with_validator ct_eq hash clock try_from a v scope presented w).0
          ≡ ok (Verdict.authenticated u) =
        rw (f, authenticate_key) at (rw (m, authenticate_key) at h) in
      let (cached, found, rest) = bind-ok (get_shared clock a.cache cache_key) _ w _ decided in
      after_lookup w u cached found rest
