-- ===== src/Mechanisms/ApiToken/Lasting.antt =====
-- src/mechanisms/api_token.rs: what is cached of a key that the validator accepted, and for how long.
use authn_kit.Prelude.{
  ℕ, ◌+◌, ◌-◌, ◌≤◌, ◌<◌, ◌≡◌, ◌⊎◌, inl, inr, refl, true, Bool, Option, none, some, List, arith,
  Bool-cases, ap, ==_iff, ◌==◌, sym, subst, ◌∙◌,
}
use authn_kit.Text.{Text}
use authn_kit.Effect.{ok, M, pure, Clock, ◌>>◌}
use authn_kit.Effect.Laws.{bind-ok, ok-bind}
use authn_kit.Claims.{IdentityClaims}
use authn_kit.Outcome.{Verdict}
use authn_kit.Map.{lookup}
use authn_kit.Cache.{CacheConfig, CredentialCache, CacheKey, Entry, key_Eq, ttl, is_refused}
use authn_kit.Cache.Shared.{insert_shared}
use authn_kit.Cache.Shared.Laws.{stored_in, insert_shared-refused, insert_shared-accepted}
use authn_kit.Mechanisms.ApiToken.{
  TokenValidator, ApiTokenAuthenticator, remaining, cache_ttl, validated,
}
use authn_kit.Mechanisms.ApiToken.Fallback.{validated-ok}

-- How long an entry is kept for claims with this expiry, at the time `now`: no longer than they are
-- valid, and no longer than the cap. Where they have no expiry, or one that has passed, the cache's
-- own time counts, and the cap does not.
abbrev pub Lasts : Option ℕ → ℕ → ℕ → CacheConfig → ℕ → Type 0
Lasts none now cap config n = n ≡ config.fallback_ttl - config.refresh_margin
Lasts (some expires_at) now cap config n =
    (now ≤ expires_at → (now + n ≤ expires_at) × (n ≤ cap))
    × (expires_at < now → n ≡ config.fallback_ttl - config.refresh_margin)

refused-nothing :
    (config : CacheConfig) (expires_in : Option ℕ)
    → is_refused config expires_in ≡ true
    → (ttl config expires_in ≡ 0) ⊎ (config.max_entries ≡ 0)
unfolding is_refused
refused-nothing config expires_in h = elim (Bool-cases (ttl config expires_in == 0)) [
  | inl b ↦ inl ((==_iff (ttl config expires_in) 0).0 b)
  | inr b ↦ inr ((==_iff config.max_entries 0).0 (rw b at h))
]

module _ {U Value W : Type 0} (clock : Clock W) (a : ApiTokenAuthenticator U Value W) where
  -- what the validator's expiry leaves at a time
  abbrev limited : Option ℕ → ℕ → Option ℕ
  limited none now = none
  limited (some expires_at) now = remaining a expires_at now

  abbrev pub timed_in : Option ℕ → W → W
  timed_in none w = w
  timed_in (some _) w = (clock.system_now w).1

  cache_ttl-limited :
      (o : Option ℕ) (w : W)
      → cache_ttl clock a o w ≡ (ok (limited o (clock.system_now w).0), timed_in o w)
  unfolding cache_ttl
  cache_ttl-limited none w = refl
  cache_ttl-limited (some expires_at) w = refl

  limited-Lasts :
      (config : CacheConfig) (o : Option ℕ) (now : ℕ)
      → Lasts o now a.max_cache_ttl config (ttl config (limited o now))
  unfolding ttl remaining
  limited-Lasts config none now = refl
  limited-Lasts config (some expires_at) now = (λ h. ground arith, λ h. ground arith)

  module _ (ct_eq : List ℕ → List ℕ → Bool) (hash : Text → List ℕ)
      (try_from : IdentityClaims Value → Text ⊎ U) (v : TokenValidator Value W)
      (scope : Option Text) (presented : Text) (k : CacheKey) where
    -- After the call an entry holds the user, and expires `n` after the clock was read for it; or there
    -- is nothing to keep, for no time or in a cache without room, and the cache is as it was.
    abbrev pub Kept : W → W → U → ℕ → Type 0
    Kept before end u n =
        ((e : Entry U) × (lookup k (a.cache.load end).entries ≡ some e)
          × (e.value ≡ u)
          × (e.expires_at ≡ (clock.instant_now (stored_in clock a.cache k before)).0 + n))
        ⊎ (((n ≡ 0) ⊎ ((a.cache.load before).config.max_entries ≡ 0))
            × (a.cache.load end ≡ a.cache.load before))

    inserted-Kept :
        (keeps : (c : CredentialCache U) (w : W) → a.cache.load (a.cache.store c w) ≡ c) (u : U)
        (expires_in : Option ℕ) (w : W)
        → (insert_shared clock a.cache k u expires_in w).0 ≡ ok tt
        → Kept w
            (insert_shared clock a.cache k u expires_in w).1
            u
            (ttl (a.cache.load w).config expires_in)
    inserted-Kept keeps u expires_in w done =
        let c = a.cache.load w in
        elim (Bool-cases (is_refused c.config expires_in)) [
          | inl b ↦ inr (
            refused-nothing c.config expires_in b,
            ap (λ r. a.cache.load r.1) (insert_shared-refused clock a.cache k u expires_in w b)
                ∙ keeps c w,
          )
          | inr b ↦
              inl
                (_, insert_shared-accepted clock a.cache k keeps u expires_in w b done, refl, refl)
        ]

    -- A key that the validator accepts, and whose user is answered, is cached until its expiry at most and
    -- for the configured cap at most, counted from the readings of the clocks after the validation.
    -- If it has no expiry, or one that has passed, it is cached for the cache's fallback time less the
    -- margin, whatever the cap is. Only an entry that would last no time, or a cache without room, is
    -- left out, and then the cache is as it was.
    pub validated-Kept :
        (keeps : (c : CredentialCache U) (w : W) → a.cache.load (a.cache.store c w) ≡ c) (w : W)
        (u : U)
        → (validated ct_eq hash clock try_from a v scope presented k w).0
          ≡ ok (Verdict.authenticated u)
        → (let checked = v.validate presented scope w in
            (claims : IdentityClaims Value) × (n : ℕ) × (checked.0 ≡ ok claims)
            × (let before = timed_in claims.expires_at checked.1 in
                Lasts claims.expires_at
                  (clock.system_now checked.1).0
                  a.max_cache_ttl
                  (a.cache.load before).config
                  n
                × Kept before (validated ct_eq hash clock try_from a v scope presented k w).1 u n))
    unfolding validated
    validated-Kept keeps w u h =
        let (claims, valid, converts) =
          validated-ok ct_eq hash clock try_from a v scope presented k w u h in
        let w' = (v.validate presented scope w).1 in
        let now = (clock.system_now w').0 in
        let before = timed_in claims.expires_at w' in
        let expires_in = limited claims.expires_at now in
        let store : M W (Unit {0}) = insert_shared clock a.cache k u expires_in in
        let answer : M W (Verdict U) = store >> pure (Verdict.authenticated u) in
        let reached : validated ct_eq hash clock try_from a v scope presented k w ≡ answer before =
          rw (valid, validated) (rw (cache_ttl-limited claims.expires_at w') (rw converts refl)) in
        let (_, done, _) = bind-ok store _ before _ (ap (λ r. r.0) (sym reached) ∙ h) in
        let end : (store before).1
            ≡ (validated ct_eq hash clock try_from a v scope presented k w).1 =
          sym (ap (λ r. r.1) (reached ∙ ok-bind store _ before tt done)) in
        let config = (a.cache.load before).config in
        (
          claims,
          ttl config expires_in,
          valid,
          (
            limited-Lasts config claims.expires_at now,
            subst (λ x. Kept before x u (ttl config expires_in)) end
                (inserted-Kept keeps u expires_in before done),
          ),
        )
