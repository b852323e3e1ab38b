-- ===== src/Cache/Rounds.antt =====
-- src/cache.rs, the `while` loop of `insert`: it comes to an end, whatever the number of entries.
use authn_kit.Prelude.{
  ℕ, zero, suc, ◌≤◌, ◌<◌, ◌≡◌, inl, inr, true, false, some, List, [], ◌∷◌, arith, leb, ltb, length,
  Bool-cases,
}
use authn_kit.Map.{lookup, remove, retain, Distinct}
use authn_kit.Map.Laws.{length-remove, remove-Distinct, retain-Distinct}
use authn_kit.Cache.{CacheKey, key_Eq, Entry, evict, CredentialCache, make_room}
use authn_kit.Cache.Eviction.{coldest-some, coldest-le, coldest-lookup}

module _ {U : Type 0} where
  -- The runs of the loop that end, as its source reads and without fuel: it ends below the limit, and
  -- until then a round takes out an entry that was used no later than any other.
  pub data Loop (limit : ℕ) : List (CacheKey × Entry U) → List (CacheKey × Entry U) → Type 0 where
    done : {m : List (CacheKey × Entry U)} → length m < limit → Loop limit m m
    round :
        {m n : List (CacheKey × Entry U)} (k : CacheKey) (e : Entry U)
        → limit ≤ length m
        → lookup k m ≡ some e
        → ((j : CacheKey) (f : Entry U) → lookup j m ≡ some f → e.last_used ≤ f.last_used)
        → Loop limit (remove k m) n
        → Loop limit m n

  open_round :
      (fuel limit : ℕ) (p : CacheKey × Entry U) (m : List (CacheKey × Entry U))
      → Distinct (p ∷ m)
      → length (p ∷ m) ≤ suc fuel
      → limit ≤ length (p ∷ m)
      → ((n : List (CacheKey × Entry U))
          → Distinct n
          → length n ≤ fuel
          → Loop limit n (evict fuel limit n))
      → Loop limit (p ∷ m) (evict (suc fuel) limit (p ∷ m))
  unfolding evict
  open_round fuel limit p m d h full next =
      let (k, u, found) = coldest-some p m in
      let (e, held, stamp) = coldest-lookup (p ∷ m) k u d found in
      let shorter = length-remove k e (p ∷ m) held in
      let least : (j : CacheKey) (f : Entry U)
          → lookup j (p ∷ m) ≡ some f
          → e.last_used ≤ f.last_used =
        λ j f q. let l = coldest-le (p ∷ m) k u j f found q in omega (arith, stamp, l) in
      let rest =
        next (remove k (p ∷ m)) (remove-Distinct k (p ∷ m) d) (omega (arith, shorter, h)) in
      let full_test : leb limit (length (p ∷ m)) ≡ true = ground (arith, full) in
      rw (full_test, evict) (rw (found, evict) (round k e full held least rest))

  evict-Loop :
      (fuel limit : ℕ) (m : List (CacheKey × Entry U))
      → Distinct m
      → length m ≤ fuel
      → 0 < limit
      → Loop limit m (evict fuel limit m)
  unfolding evict
  evict-Loop zero limit [] d h l = done l
  evict-Loop zero limit (p ∷ m) d h l = absurd (omega arith)
  evict-Loop (suc fuel) limit [] d h l =
      let below : leb limit 0 ≡ false = ground (arith, l) in rw (below, evict) (done l)
  evict-Loop (suc fuel) limit (p ∷ m) d h l = elim (Bool-cases (leb limit (length (p ∷ m)))) [
    | inl b ↦
        open_round fuel limit p m d h (ground (arith, b)) (λ n e k. evict-Loop fuel limit n e k l)
    | inr b ↦ rw (b, evict) (done (ground (arith, b)))
  ]

  -- The loop ends: where the capacity is not zero, from the entries that have not expired it makes
  -- rounds, each of which takes out an entry that was used no later than any other, until there are
  -- fewer than the capacity, and these are what is left.
  pub make_room-Loop :
      (now : ℕ) (c : CredentialCache U)
      → Distinct c.entries
      → 0 < c.config.max_entries
      → Loop c.config.max_entries
          (retain (λ e. ltb now e.expires_at) c.entries)
          (make_room now c).entries
  unfolding make_room
  make_room-Loop now c d l =
      evict-Loop _ _ _ (retain-Distinct (λ (e : Entry U). ltb now e.expires_at) c.entries d)
        (omega arith) l
