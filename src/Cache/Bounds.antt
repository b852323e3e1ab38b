-- ===== src/Cache/Bounds.antt =====
-- src/cache.rs: the invariant of the cache, and that every operation keeps it.
use authn_kit.Prelude.{
  ℕ, ◌+◌, ◌^◌, ◌≤◌, ◌<◌, ◌≡◌, ◌⊎◌, inl, inr, refl, Option, none, some, arith, leb, ltb, length,
  Option-cases, Bool-cases,
}
use authn_kit.Map.{lookup, insert, retain, Distinct, lookup-insert}
use authn_kit.Map.Laws.{
  insert-Distinct, length-insert_new, length-insert_old, lookup-remove, remove-Distinct,
  length-remove-le, lookup-retain, retain-Distinct,
}
use authn_kit.Cache.{
  CacheKey, CacheConfig, key_Eq, Entry, CredentialCache, make_room, is_full, with_room, store_entry,
  tick, get, is_refused, insert_entry, invalidate, new, instant_limit,
}
use authn_kit.Cache.Eviction.{evict-length, evict-Distinct, evict-lookup}

-- The capacity holds, no key has two entries, and no entry was used at a later tick than the clock
-- has given out.
pub record IsValid {U : Type 0} (c : CredentialCache U) : Type 0 where
  pub bounded : length c.entries ≤ c.config.max_entries
  pub distinct : Distinct c.entries
  pub stamped : (j : CacheKey) (e : Entry U) → lookup j c.entries ≡ some e → e.last_used < c.clock

module _ {U : Type 0} where
  pub new-IsValid : (config : CacheConfig) → IsValid (new {U = U} config)
  unfolding new lookup
  new-IsValid config = record { bounded = omega arith; distinct = tt; stamped = λ j e h. cc }

  pub make_room-Distinct :
      (now : ℕ) (c : CredentialCache U) → Distinct c.entries → Distinct (make_room now c).entries
  unfolding make_room
  make_room-Distinct now c d = evict-Distinct _ _ _ (retain-Distinct _ c.entries d)

  pub make_room-length :
      (now : ℕ) (c : CredentialCache U)
      → Distinct c.entries
      → 0 < c.config.max_entries
      → length (make_room now c).entries < c.config.max_entries
  unfolding make_room
  make_room-length now c d h = evict-length _ _ _ (retain-Distinct _ c.entries d) (omega arith) h

  -- Making room only takes entries out.
  pub make_room-lookup :
      (now : ℕ) (c : CredentialCache U) (j : CacheKey)
      → Distinct c.entries
      → (lookup j (make_room now c).entries ≡ none)
        ⊎ (lookup j (make_room now c).entries ≡ lookup j c.entries)
  unfolding make_room
  make_room-lookup now c j d =
      let live = retain (λ (e : Entry U). ltb now e.expires_at) c.entries in
      ground (
        arith,
        evict-lookup (length live) c.config.max_entries live j (retain-Distinct _ c.entries d),
        lookup-retain (λ (e : Entry U). ltb now e.expires_at) j c.entries d,
      )

  pub tick-clock :
      (c : CredentialCache U) → c.clock + 1 < 2 ^ 64 → (tick c).1.clock ≡ (tick c).0 + 1
  unfolding tick
  tick-clock c h = omega arith

  pub tick-IsValid : (c : CredentialCache U) → c.clock + 1 < 2 ^ 64 → IsValid c → IsValid (tick c).1
  unfolding tick
  tick-IsValid c h v = record {
    bounded = v.bounded;
    distinct = v.distinct;
    stamped = λ j e q. let old : e.last_used < c.clock = v.stamped j e q in omega arith;
  }

  -- Writing an entry keeps the invariant, where a new key finds room.
  pub put-IsValid :
      (k : CacheKey) (e : Entry U) (c : CredentialCache U)
      → IsValid c
      → e.last_used < c.clock
      → (lookup k c.entries ≡ none → length c.entries < c.config.max_entries)
      → IsValid (record c { entries = insert k e c.entries })
  put-IsValid k e c v stamp room = record {
    bounded = elim (Option-cases (lookup k c.entries)) [
      | inl n ↦ rw (length-insert_new k e c.entries n) (room n)
      | inr (f, q) ↦ rw (length-insert_old k e f c.entries q) v.bounded
    ];
    distinct = insert-Distinct k e c.entries v.distinct;
    stamped =
        λ j f q. let old = v.stamped j f in ground (arith, lookup-insert k j e c.entries, old);
  }

  pub get-IsValid :
      (k : CacheKey) (now : ℕ) (c : CredentialCache U)
      → c.clock + 1 < 2 ^ 64
      → IsValid c
      → IsValid (get k now c).1
  unfolding get
  get-IsValid k now c h v = elim (Option-cases (lookup k c.entries)) [
    | inl n ↦ rw (n, get) (tick-IsValid c h v)
    | inr (e, q) ↦ elim (Bool-cases (ltb now e.expires_at)) [
      | inl b ↦
          rw (q, get)
            (rw b (
              put-IsValid k (record e { last_used = c.clock }) (tick c).1 (tick-IsValid c h v)
                (omega arith) (λ n. cc)))
      | inr b ↦ rw (q, get) (rw b (tick-IsValid c h v))
    ]
  ]

  pub invalidate-IsValid :
      (k : CacheKey) (c : CredentialCache U) → IsValid c → IsValid (invalidate k c)
  unfolding invalidate
  invalidate-IsValid k c v = record {
    bounded = omega (arith, length-remove-le k c.entries, v.bounded);
    distinct = remove-Distinct k c.entries v.distinct;
    stamped = λ j e q.
        let old = v.stamped j e in ground (arith, lookup-remove k j c.entries v.distinct, old);
  }

  make_room-IsValid :
      (now : ℕ) (c : CredentialCache U)
      → 0 < c.config.max_entries
      → IsValid c
      → IsValid (make_room now c)
  unfolding make_room
  make_room-IsValid now c h v = record {
    bounded = let fits = make_room-length now c v.distinct h in omega arith;
    distinct = make_room-Distinct now c v.distinct;
    stamped = λ j e q. v.stamped j e (ground (arith, make_room-lookup now c j v.distinct, q));
  }

  pub with_room-IsValid :
      (k : CacheKey) (now : ℕ) (c : CredentialCache U)
      → 0 < c.config.max_entries
      → IsValid c
      → IsValid (with_room k now c)
  unfolding with_room
  with_room-IsValid k now c h v = elim (Bool-cases (is_full k c)) [
    | inl f ↦ rw f (make_room-IsValid now c h v)
    | inr f ↦ rw f v
  ]

  -- After making room a new key finds room; the clock and the limits stay.
  pub with_room-room :
      (k : CacheKey) (now : ℕ) (c : CredentialCache U)
      → 0 < c.config.max_entries
      → IsValid c
      → (lookup k (with_room k now c).entries ≡ none
          → length (with_room k now c).entries < (with_room k now c).config.max_entries)
        × ((with_room k now c).clock ≡ c.clock)
        × ((with_room k now c).config ≡ c.config)
  unfolding with_room is_full
  with_room-room k now c h v = elim (Bool-cases (is_full k c)) [
    | inl f ↦ rw f (
      (λ _. make_room-length now c v.distinct h),
      unfold make_room in refl,
      unfold make_room in refl,
    )
    | inr f ↦ rw f ((λ n. ground (arith, f)), refl, refl)
  ]

  -- It only takes entries out.
  pub with_room-lookup :
      (k : CacheKey) (now : ℕ) (c : CredentialCache U) (j : CacheKey)
      → Distinct c.entries
      → (lookup j (with_room k now c).entries ≡ none)
        ⊎ (lookup j (with_room k now c).entries ≡ lookup j c.entries)
  unfolding with_room
  with_room-lookup k now c j d = ground (arith, make_room-lookup now c j d)

  pub store_entry-IsValid :
      (k : CacheKey) (e : Entry U) (c : CredentialCache U)
      → IsValid c
      → e.last_used < c.clock
      → (lookup k c.entries ≡ none → length c.entries < c.config.max_entries)
      → IsValid (store_entry k e c).1
  unfolding store_entry
  store_entry-IsValid k e c v stamp room = elim (Bool-cases (leb instant_limit e.expires_at)) [
    | inl b ↦ rw b v
    | inr b ↦ rw b (put-IsValid k e c v stamp room)
  ]

  pub insert_entry-IsValid :
      (k : CacheKey) (value : U) (expires_in : Option ℕ) (now later : ℕ) (c : CredentialCache U)
      → c.clock + 1 < 2 ^ 64
      → IsValid c
      → IsValid (insert_entry k value expires_in now later c).1
  unfolding insert_entry
  insert_entry-IsValid k value expires_in now later c h v =
      let c₁ : CredentialCache U = (tick c).1 in
      elim (Bool-cases (is_refused c.config expires_in)) [
        | inl b ↦ rw b v
        | inr b ↦
            let some_room : 0 < c₁.config.max_entries = ground (arith, b) in
            let v₁ : IsValid c₁ = tick-IsValid c h v in
            let (room, same_clock, same_config) = with_room-room k now c₁ some_room v₁ in
            rw b (
              store_entry-IsValid k _ (with_room k now c₁) (with_room-IsValid k now c₁ some_room v₁)
                (omega (arith, same_clock)) room)
      ]
