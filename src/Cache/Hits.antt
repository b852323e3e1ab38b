-- ===== src/Cache/Hits.antt =====
-- src/cache.rs: what a lookup answers after other calls, and the cache against a ledger that never
-- evicts.
use authn_kit.Prelude.{
  ℕ, ◌+◌, ◌<◌, ◌≡◌, ◌≢◌, ◌⊎◌, ◌↔◌, refl, false, Option, none, some, List, arith, leb, ltb,
  if◌then◌else◌, ap,
}
use authn_kit.Text.{Text}
use authn_kit.Map.{lookup, Distinct, lookup-insert}
use authn_kit.Cache.{
  CacheKey, key_eq, key_eq_iff, key_Eq, Entry, CredentialCache, tick, get, is_refused, ttl,
  instant_limit, with_room, store_entry, insert_entry, key,
}
use authn_kit.Cache.Bounds.{with_room-lookup}

-- A lookup of a key made for one scope never reads an entry made for another, whatever the other
-- parts and whatever the hash function.
pub key-scope :
    (hash : Text → List ℕ) (s t : Option Text) (m n p q a b : Text)
    → s ≢ t
    → key hash s m p a ≢ key hash t n q b
unfolding key
key-scope hash s t m n p q a b h e = h (ap (λ (k : CacheKey). k.scope) e)

module _ {U : Type 0} where
  -- an insertion that is not refused and does not panic
  abbrev pub IsAccepted : CredentialCache U → Option ℕ → ℕ → Type 0
  IsAccepted c expires_in later =
      (is_refused c.config expires_in ≡ false) × (later + ttl c.config expires_in < instant_limit)

  -- what an entry, if there is one, answers at a time
  abbrev served : ℕ → Option (Entry U) → Option U
  served now none = none
  served now (some e) = if ltb now e.expires_at then some e.value else none

  get-served :
      (k : CacheKey) (now : ℕ) (c : CredentialCache U)
      → (get k now c).0 ≡ served now (lookup k c.entries)
  unfolding get
  get-served k now c = ground arith

  served_iff :
      (now : ℕ) (o : Option (Entry U)) (u : U)
      → (served now o ≡ some u)
        ↔ ((e : Entry U) × (o ≡ some e) × (e.value ≡ u) × (now < e.expires_at))
  served_iff now none u = (λ h. cc, λ (e, q, v, l). cc)
  served_iff now (some e) u = (
    λ h. (e, refl, ground (arith, h), ground (arith, h)),
    λ (f, q, v, l). ground (arith, q, v, l),
  )

  -- A lookup hits exactly if there is an entry that has not expired, and answers its value.
  pub get_iff :
      (k : CacheKey) (now : ℕ) (c : CredentialCache U) (u : U)
      → ((get k now c).0 ≡ some u)
        ↔ ((e : Entry U) × (lookup k c.entries ≡ some e) × (e.value ≡ u) × (now < e.expires_at))
  get_iff k now c u = rw (get-served k now c) (served_iff now (lookup k c.entries) u)

  pub get_miss :
      (k : CacheKey) (now : ℕ) (c : CredentialCache U)
      → lookup k c.entries ≡ none
      → (get k now c).0 ≡ none
  unfolding get
  get_miss k now c h = ground (arith, h)

  pub lookup-insert_entry :
      (k j : CacheKey) (value : U) (expires_in : Option ℕ) (now later : ℕ) (c : CredentialCache U)
      → IsAccepted c expires_in later
      → lookup j (insert_entry k value expires_in now later c).1.entries ≡ (
          if key_eq k j
          then some (record {
            value = value;
            expires_at = later + ttl c.config expires_in;
            last_used = c.clock;
          })
          else lookup j (with_room k now (tick c).1).entries)
  unfolding insert_entry store_entry tick
  lookup-insert_entry k j value expires_in now later c (b, l) =
      let fits : leb instant_limit (later + ttl c.config expires_in) ≡ false = ground (arith, l) in
      rw (b, fits) (lookup-insert k j _ (with_room k now (tick c).1).entries)

  -- A credential that was just cached is served until its time to live is over, also where it took
  -- the place of others.
  pub get-insert_entry :
      (k : CacheKey) (value : U) (expires_in : Option ℕ) (now later at : ℕ) (c : CredentialCache U)
      → IsAccepted c expires_in later
      → (get k at (insert_entry k value expires_in now later c).1).0
        ≡ (if ltb at (later + ttl c.config expires_in) then some value else none)
  get-insert_entry k value expires_in now later at c h = ground (
    arith,
    get-served k at (insert_entry k value expires_in now later c).1,
    lookup-insert_entry k k value expires_in now later c h,
    key_eq_iff k k,
  )

  lookup-insert_entry_ne :
      (k j : CacheKey) (value : U) (expires_in : Option ℕ) (now later : ℕ) (c : CredentialCache U)
      → Distinct c.entries
      → k ≢ j
      → (lookup j (insert_entry k value expires_in now later c).1.entries ≡ none)
        ⊎ (lookup j (insert_entry k value expires_in now later c).1.entries ≡ lookup j c.entries)
  unfolding insert_entry store_entry
  lookup-insert_entry_ne k j value expires_in now later c d n =
      let c₂ : CredentialCache U = with_room k now (tick c).1 in
      ground (
        arith,
        key_eq_iff k j,
        with_room-lookup k now (tick c).1 j d,
        lookup-insert k j
            (record {
              value = value;
              expires_at = later + ttl c.config expires_in;
              last_used = (tick c).0;
            })
            c₂.entries,
      )

  -- Caching a credential never changes what is served under another key, but that it may evict it.
  pub get-insert_entry_ne :
      (k j : CacheKey) (value : U) (expires_in : Option ℕ) (now later at : ℕ)
      (c : CredentialCache U)
      → Distinct c.entries
      → k ≢ j
      → ((get j at (insert_entry k value expires_in now later c).1).0 ≡ none)
        ⊎ ((get j at (insert_entry k value expires_in now later c).1).0 ≡ (get j at c).0)
  get-insert_entry_ne k j value expires_in now later at c d n = ground (
    arith,
    get-served j at (insert_entry k value expires_in now later c).1,
    get-served j at c,
    lookup-insert_entry_ne k j value expires_in now later c d n,
  )
