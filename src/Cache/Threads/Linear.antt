-- ===== src/Cache/Threads/Linear.antt =====
-- src/cache.rs: calls that run side by side keep the cache's invariant, and are answered as if they
-- had followed one another in the order in which they took the lock.
use authn_kit.Prelude.{
  ℕ, suc, ◌+◌, ◌^◌, ◌≤◌, ◌<◌, ◌≡◌, inl, inr, refl, Bool, true, false, Option, none, some, ltb, ◌==◌,
  if◌then◌else◌, arith, Bool-cases, Option-cases, ◌∙◌, ap,
}
use authn_kit.Map.{lookup, lookup-insert}
use authn_kit.Cache.{
  CacheKey, CacheConfig, key_eq_iff, key_Eq, CredentialCache, tick, is_refused, ttl, with_room,
  store_entry, invalidate, new,
}
use authn_kit.Cache.Bounds.{
  IsValid, new-IsValid, tick-IsValid, put-IsValid, store_entry-IsValid, invalidate-IsValid,
  with_room-IsValid, with_room-room, with_room-lookup,
}
use authn_kit.Cache.Ledger.{
  Ledger, inserts, note, Agrees, config-with_room, clock-with_room, invalidate-Agrees,
}
use authn_kit.Cache.Threads.{
  get_locked, insert_locked, Task, free, getting, inserting, Shared, ticked, Move, begin_get,
  begin_insert, look, put, revoke, System, pick, Reach, start, next,
}

module _ {U : Type 0} where
  get_locked-IsValid :
      (k : CacheKey) (t now : ℕ) (c : CredentialCache U)
      → t < c.clock
      → IsValid c
      → IsValid (get_locked k t now c).1
  unfolding get_locked
  get_locked-IsValid k t now c h v = elim (Option-cases (lookup k c.entries)) [
    | inl n ↦ rw (n, get_locked) v
    | inr (e, q) ↦ elim (Bool-cases (ltb now e.expires_at)) [
      | inl b ↦
          rw (q, get_locked) (rw b (put-IsValid k (record e { last_used = t }) c v h (λ n. cc)))
      | inr b ↦ rw (q, get_locked) (rw b v)
    ]
  ]

  get_locked-Agrees :
      (k : CacheKey) (t now : ℕ) (c : CredentialCache U) (l : Ledger U)
      → Agrees c l
      → Agrees (get_locked k t now c).1 l
  unfolding get_locked
  get_locked-Agrees k t now c l a j e q = elim (Option-cases (lookup k c.entries)) [
    | inl n ↦ a j e (ground (arith, n, q))
    | inr (f, n) ↦ ground (
      arith,
      n,
      q,
      a j e,
      a k f n,
      key_eq_iff k j,
      lookup-insert k j (record f { last_used = t }) c.entries,
    )
  ]

  get_locked-clock :
      (k : CacheKey) (t now : ℕ) (c : CredentialCache U)
      → ((get_locked k t now c).1.clock ≡ c.clock) × ((get_locked k t now c).1.config ≡ c.config)
  unfolding get_locked
  get_locked-clock k t now c = ground arith

  insert_locked-IsValid :
      (k : CacheKey) (value : U) (expires_in : Option ℕ) (t now later : ℕ) (c : CredentialCache U)
      → t < c.clock
      → is_refused c.config expires_in ≡ false
      → IsValid c
      → IsValid (insert_locked k value expires_in t now later c).1
  unfolding insert_locked is_refused
  insert_locked-IsValid k value expires_in t now later c h b v =
      let some_room : 0 < c.config.max_entries = ground (arith, b) in
      let (room, same_clock, _) = with_room-room k now c some_room v in
      store_entry-IsValid k _ (with_room k now c) (with_room-IsValid k now c some_room v)
        (omega (arith, same_clock, h)) room

  insert_locked-Agrees :
      (k : CacheKey) (value : U) (expires_in : Option ℕ) (t now later : ℕ) (c : CredentialCache U)
      (l : Ledger U)
      → is_refused c.config expires_in ≡ false
      → IsValid c
      → Agrees c l
      → Agrees
          (insert_locked k value expires_in t now later c).1
          (note c.config (inserts k value expires_in now later) l)
  unfolding insert_locked store_entry
  insert_locked-Agrees k value expires_in t now later c l b v a j e q = ground (
    arith,
    b,
    q,
    a j e,
    key_eq_iff k j,
    with_room-lookup k now c j v.distinct,
    lookup-insert k j
        (record { value = value; expires_at = later + ttl c.config expires_in; last_used = t })
        (with_room k now c).entries,
  )

  insert_locked-clock :
      (k : CacheKey) (value : U) (expires_in : Option ℕ) (t now later : ℕ) (c : CredentialCache U)
      → ((insert_locked k value expires_in t now later c).1.clock ≡ c.clock)
        × ((insert_locked k value expires_in t now later c).1.config ≡ c.config)
  unfolding insert_locked store_entry
  insert_locked-clock k value expires_in t now later c =
      ground (arith, config-with_room k now c, clock-with_room k now c)

-- What a call under way has: an earlier tick, and for an insertion, that it was not refused.
abbrev pub Fits : {U : Type 0} → CredentialCache U → Task U → Type 0
Fits c free = Unit
Fits c (getting k t) = t < c.clock
Fits c (inserting k value expires_in t) = (t < c.clock) × (is_refused c.config expires_in ≡ false)

module _ {U : Type 0} where
  -- The clock counts the ticks, the cache is valid, and every entry is the ledger's.
  record IsLinear (m : Shared U) : Type 0 where
    counted : m.cache.clock ≡ m.ticks
    valid : IsValid m.cache
    agrees : Agrees m.cache m.ledger

  -- The clock does not run back, and the limits stay.
  abbrev Follows : CredentialCache U → CredentialCache U → Type 0
  Follows c d = (c.clock ≤ d.clock) × (d.config ≡ c.config)

  Follows-Fits : (c d : CredentialCache U) (q : Task U) → Follows c d → Fits c q → Fits d q
  Follows-Fits c d free f g = tt
  Follows-Fits c d (getting k t) f g = omega (arith, f.0, g)
  Follows-Fits c d (inserting k value expires_in t) f g =
      (omega (arith, f.0, g.0), ap (λ x. is_refused x expires_in) f.1 ∙ g.1)

  ticked-IsLinear :
      (m : Shared U)
      → suc m.ticks < 2 ^ 64
      → IsLinear m
      → IsLinear (ticked m)
        × Follows m.cache (ticked m).cache
        × ((tick m.cache).0 < (ticked m).cache.clock)
  unfolding tick
  ticked-IsLinear m h l =
      let small : m.cache.clock + 1 < 2 ^ 64 = omega (arith, h, l.counted) in
      (
        record {
          counted = omega (arith, l.counted, h);
          valid = tick-IsValid m.cache small l.valid;
          agrees = l.agrees;
        },
        (omega (arith, small), refl),
        omega (arith, small),
      )

  Move-IsLinear :
      (m n : Shared U) (q r : Task U)
      → Move m q n r
      → n.ticks < 2 ^ 64
      → IsLinear m
      → Fits m.cache q
      → IsLinear n × Follows m.cache n.cache × Fits n.cache r
  Move-IsLinear m n q r (begin_get k) h l f = ticked-IsLinear m h l
  Move-IsLinear m n q r (begin_insert k value expires_in accepted) h l f =
      let (l', follows, stamped) = ticked-IsLinear m h l in
      (l', follows, (stamped, ap (λ x. is_refused x expires_in) follows.1 ∙ accepted))
  Move-IsLinear m n q r (look {k} {t} now) h l f =
      let (clock, config) = get_locked-clock k t now m.cache in
      (
        record {
          counted = clock ∙ l.counted;
          valid = get_locked-IsValid k t now m.cache f l.valid;
          agrees = get_locked-Agrees k t now m.cache m.ledger l.agrees;
        },
        (omega (arith, clock), config),
        tt,
      )
  Move-IsLinear m n q r (put {k} {value} {expires_in} {t} now after) h l f =
      let (clock, config) = insert_locked-clock k value expires_in t now after m.cache in
      (
        record {
          counted = clock ∙ l.counted;
          valid = insert_locked-IsValid k value expires_in t now after m.cache f.0 f.1 l.valid;
          agrees =
              insert_locked-Agrees k value expires_in t now after m.cache m.ledger f.1 l.valid
                l.agrees;
        },
        (omega (arith, clock), config),
        tt,
      )
  Move-IsLinear m n q r (revoke k) h l f = (
    record {
      counted = unfold invalidate in l.counted;
      valid = invalidate-IsValid k m.cache l.valid;
      agrees = invalidate-Agrees k m.cache m.ledger l.valid l.agrees;
    },
    unfold invalidate in (omega arith, refl),
    tt,
  )

  Move-ticks : (m n : Shared U) (q r : Task U) → Move m q n r → m.ticks ≤ n.ticks
  Move-ticks m n q r (begin_get k) = omega arith
  Move-ticks m n q r (begin_insert k value expires_in accepted) = omega arith
  Move-ticks m n q r (look now) = omega arith
  Move-ticks m n q r (put now after) = omega arith
  Move-ticks m n q r (revoke k) = omega arith

  -- What holds however the calls come between each other.
  record IsOrderly (s : System U) : Type 0 where
    linear : IsLinear s.shared
    fits : (t : ℕ) → Fits s.shared.cache (s.task t)

  Reach-IsOrderly :
      {config : CacheConfig} {s : System U} → Reach config s → s.shared.ticks < 2 ^ 64 → IsOrderly s
  unfolding new lookup
  Reach-IsOrderly {config} start h = record {
    linear = record { counted = refl; valid = new-IsValid config; agrees = λ j e q. cc };
    fits = λ t. tt;
  }
  Reach-IsOrderly (next {s} r (pick t {m} {q} move)) h =
      let o = Reach-IsOrderly r (omega (arith, h, Move-ticks s.shared m (s.task t) q move)) in
      let (l, follows, own) = Move-IsLinear s.shared m (s.task t) q move h o.linear (o.fits t) in
      record {
        linear = l;
        fits = λ u. elim (Bool-cases (u == t)) [
          | inl e ↦ rw e own
          | inr n ↦ rw n (Follows-Fits s.shared.cache m.cache (s.task u) follows (o.fits u))
        ];
      }

  -- However the calls on a cache that was empty come between each other, while there were fewer than
  -- 2^64 ticks it holds no more than its capacity, no key twice, and no use later than its clock,
  -- which is the number of ticks.
  pub Reach-IsValid :
      (config : CacheConfig) (s : System U)
      → Reach config s
      → s.shared.ticks < 2 ^ 64
      → IsValid s.shared.cache × (s.shared.cache.clock ≡ s.shared.ticks)
  Reach-IsValid config s r h = let l = (Reach-IsOrderly r h).linear in (l.valid, l.counted)

  hit :
      (b : Bool) (v u : U) (c d : CredentialCache U)
      → (if◌then◌else◌ {A = Option U × CredentialCache U} b (some v, c) (none, d)).0 ≡ some u
      → (b ≡ true) × (v ≡ u)
  hit true v u c d h = (refl, cc h)
  hit false v u c d h = cc h

  -- However the calls come between each other, what `get` answers behind the lock, whenever its tick
  -- was, is the value that was put last under its key, in the order in which the calls took the lock,
  -- not invalidated since, and not expired; while there were fewer than 2^64 ticks.
  pub Reach-hit :
      (config : CacheConfig) (s : System U) (k : CacheKey) (t now : ℕ) (u : U)
      → Reach config s
      → s.shared.ticks < 2 ^ 64
      → (get_locked k t now s.shared.cache).0 ≡ some u
      → (expires_at : ℕ) × (s.shared.ledger k ≡ some (u, expires_at)) × (now < expires_at)
  unfolding get_locked
  Reach-hit config s k t now u r h answer = elim (Option-cases (lookup k s.shared.cache.entries)) [
    | inl n ↦ absurd (cc (rw (n, get_locked) at answer))
    | inr (e, q) ↦
        let kept = (Reach-IsOrderly r h).linear.agrees k e q in
        let (alive, same) =
          hit (ltb now e.expires_at) e.value u _ _ (rw (q, get_locked) at answer) in
        (e.expires_at, kept ∙ (λ i. some (same i, e.expires_at)), ground (arith, alive))
  ]
