-- ===== src/Cache/Eviction.antt =====
-- src/cache.rs, `insert` at capacity: the loop ends with room for one entry, and what it evicts was
-- used no later than anything that stays.
use authn_kit.Prelude.{
  ℕ, zero, suc, ◌≤◌, ◌<◌, ◌≡◌, ◌≢◌, ◌⊎◌, inl, inr, refl, true, none, some, List, [], ◌∷◌, arith,
  leb, ltb, length, Option-cases, Bool-cases,
}
use authn_kit.Map.{lookup, remove, retain, Distinct}
use authn_kit.Map.Laws.{
  lookup-remove, remove-Distinct, length-remove, lookup-retain, retain-Distinct,
}
use authn_kit.Cache.{
  CacheKey, key_eq_iff, key_Eq, Entry, coldest, evict, CredentialCache, with_room, make_room,
  is_full,
}

module _ {U : Type 0} where
  pub coldest-some :
      (p : CacheKey × Entry U) (m : List (CacheKey × Entry U))
      → (k : CacheKey) × (u : ℕ) × (coldest (p ∷ m) ≡ some (k, u))
  unfolding coldest
  coldest-some p m = elim (Option-cases (coldest m)) [
    | inl e ↦ (p.0, p.1.last_used, rw (e, coldest))
    | inr ((j, used), e) ↦ elim (Bool-cases (leb p.1.last_used used)) [
      | inl h ↦ (p.0, p.1.last_used, rw (e, coldest) (rw h))
      | inr h ↦ (j, used, rw (e, coldest) (rw h))
    ]
  ]

  coldest-ne-none :
      (p : CacheKey × Entry U) (m : List (CacheKey × Entry U)) → coldest (p ∷ m) ≢ none
  coldest-ne-none p m h = let (k, u, e) = coldest-some p m in cc

  -- No entry is colder than the coldest.
  pub coldest-le :
      (m : List (CacheKey × Entry U)) (k : CacheKey) (u : ℕ) (j : CacheKey) (f : Entry U)
      → coldest m ≡ some (k, u)
      → lookup j m ≡ some f
      → u ≤ f.last_used
  unfolding coldest lookup
  coldest-le [] k u j f h q = cc
  coldest-le ((i, e) ∷ []) k u j f h q = ground arith
  coldest-le ((i, e) ∷ p ∷ m) k u j f h q =
      let (i₁, u₁, n) = coldest-some p m in ground (arith, n, coldest-le (p ∷ m) i₁ u₁ j f n)

  coldest-lookup_cons :
      (i k i₁ : CacheKey) (e f : Entry U) (m : List (CacheKey × Entry U)) (u u₁ : ℕ)
      → coldest m ≡ some (i₁, u₁)
      → lookup i₁ m ≡ some f
      → f.last_used ≡ u₁
      → lookup i m ≡ none
      → coldest ((i, e) ∷ m) ≡ some (k, u)
      → (x : Entry U) × (lookup k ((i, e) ∷ m) ≡ some x) × (x.last_used ≡ u)
  unfolding coldest lookup
  coldest-lookup_cons i k i₁ e f m u u₁ n q r a h = elim (Bool-cases (leb e.last_used u₁)) [
    | inl b ↦ (e, ground (arith, key_eq_iff i k), ground arith)
    | inr b ↦ (f, ground (arith, key_eq_iff i i₁), ground arith)
  ]

  -- The coldest entry is in the map.
  pub coldest-lookup :
      (m : List (CacheKey × Entry U)) (k : CacheKey) (u : ℕ)
      → Distinct m
      → coldest m ≡ some (k, u)
      → (e : Entry U) × (lookup k m ≡ some e) × (e.last_used ≡ u)
  unfolding coldest lookup
  coldest-lookup [] k u d h = cc
  coldest-lookup ((i, e) ∷ []) k u d h = (e, ground (arith, key_eq_iff i k), ground arith)
  coldest-lookup ((i, e) ∷ p ∷ m) k u (a, d) h =
      let (i₁, u₁, n) = coldest-some p m in
      let (f, q, r) = coldest-lookup (p ∷ m) i₁ u₁ d n in
      coldest-lookup_cons i k i₁ e f (p ∷ m) u u₁ n q r a h

  -- One round of the loop: it stops, or the coldest entry goes.
  evict_round :
      (fuel limit : ℕ) (m : List (CacheKey × Entry U))
      → (evict (suc fuel) limit m ≡ m)
        ⊎ ((k : CacheKey) × (u : ℕ) × (coldest m ≡ some (k, u))
            × (evict (suc fuel) limit m ≡ evict fuel limit (remove k m)))
  unfolding evict
  evict_round fuel limit m = elim (Bool-cases (leb limit (length m))) [
    | inl b ↦ elim (Option-cases (coldest m)) [
      | inl n ↦ inl (rw (b, evict) (rw (n, evict)))
      | inr ((k, u), n) ↦ inr (k, u, n, rw (b, evict) (rw (n, evict)))
    ]
    | inr b ↦ inl (rw (b, evict))
  ]

  -- With fuel for every entry the loop ends below the limit.
  pub evict-length :
      (fuel limit : ℕ) (m : List (CacheKey × Entry U))
      → Distinct m
      → length m ≤ fuel
      → 0 < limit
      → length (evict fuel limit m) < limit
  unfolding evict
  evict-length zero limit [] d h l = l
  evict-length (suc fuel) limit [] d h l = ground arith
  evict-length zero limit (p ∷ m) d h l = absurd (omega arith)
  evict-length (suc fuel) limit (p ∷ m) d h l =
      let (k, u, n) = coldest-some p m in
      let (e, q, r) = coldest-lookup (p ∷ m) k u d n in
      let rest = remove k (p ∷ m) in
      ground (
        arith,
        n,
        length-remove k e (p ∷ m) q,
        evict-length fuel limit rest (remove-Distinct k (p ∷ m) d),
      )

  pub evict-Distinct :
      (fuel limit : ℕ) (m : List (CacheKey × Entry U)) → Distinct m → Distinct (evict fuel limit m)
  evict-Distinct zero limit m d = unfold evict in d
  evict-Distinct (suc fuel) limit m d = elim (evict_round fuel limit m) [
    | inl s ↦ rw s d
    | inr (k, u, n, s) ↦ rw s (evict-Distinct fuel limit (remove k m) (remove-Distinct k m d))
  ]

  -- The loop only takes entries out.
  pub evict-lookup :
      (fuel limit : ℕ) (m : List (CacheKey × Entry U)) (j : CacheKey)
      → Distinct m
      → (lookup j (evict fuel limit m) ≡ none) ⊎ (lookup j (evict fuel limit m) ≡ lookup j m)
  evict-lookup zero limit m j d = unfold evict in inr refl
  evict-lookup (suc fuel) limit m j d = elim (evict_round fuel limit m) [
    | inl s ↦ rw s (inr refl)
    | inr (k, u, n, s) ↦ rw s (
        ground (
          arith,
          evict-lookup fuel limit (remove k m) j (remove-Distinct k m d),
          lookup-remove k j m d,
        ))
  ]

  -- What the loop evicts was used no later than anything that it leaves.
  pub evict-le :
      (fuel limit : ℕ) (m : List (CacheKey × Entry U)) (j k : CacheKey) (e f : Entry U)
      → Distinct m
      → lookup j m ≡ some e
      → lookup j (evict fuel limit m) ≡ none
      → lookup k (evict fuel limit m) ≡ some f
      → e.last_used ≤ f.last_used
  evict-le zero limit m j k e f d q gone stays = unfold evict in cc
  evict-le (suc fuel) limit m j k e f d q gone stays = elim (evict_round fuel limit m) [
    | inl s ↦ cc
    | inr (i, u, n, s) ↦
        let rest = remove i m in
        let (x, found, stamp) = coldest-lookup m i u d n in
        grind (
          arith,
          s,
          key_eq_iff i j,
          coldest-le m i u k f n,
          lookup-remove i j m d,
          lookup-remove i k m d,
          evict-lookup fuel limit rest k (remove-Distinct i m d),
          evict-le fuel limit rest j k e f (remove-Distinct i m d),
        )
  ]

  -- The pruning of a full cache drops an entry that has not expired only if it was used no later than
  -- every entry that it keeps.
  pub with_room-le :
      (k : CacheKey) (now : ℕ) (c : CredentialCache U) (j i : CacheKey) (e f : Entry U)
      → Distinct c.entries
      → lookup j c.entries ≡ some e
      → now < e.expires_at
      → lookup j (with_room k now c).entries ≡ none
      → lookup i (with_room k now c).entries ≡ some f
      → (e.last_used ≤ f.last_used) × (is_full k c ≡ true)
  unfolding with_room make_room
  with_room-le k now c j i e f d q l gone stays =
      let live = retain (λ (x : Entry U). ltb now x.expires_at) c.entries in
      ground (
        arith,
        lookup-retain (λ (x : Entry U). ltb now x.expires_at) j c.entries d,
        evict-le (length live) c.config.max_entries live j i e f (retain-Distinct _ c.entries d),
      )
