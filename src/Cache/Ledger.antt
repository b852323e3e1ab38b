-- ===== src/Cache/Ledger.antt =====
-- src/cache.rs: any sequence of calls, against a ledger that remembers the last accepted insertion
-- under each key and evicts nothing.
use authn_kit.Prelude.{
  ℕ, ◌+◌, ◌^◌, ◌≤◌, ◌<◌, ◌≡◌, inl, inr, refl, subst, ◌∙◌, ◌&&◌, not, Option, none, some, List, [],
  ◌∷◌, arith, ltb, if◌then◌else◌, length, Option-cases,
}
use authn_kit.Map.{lookup, lookup-insert}
use authn_kit.Map.Laws.{lookup-remove}
use authn_kit.Cache.{
  CacheKey, CacheConfig, key_eq, key_eq_iff, key_Eq, Entry, CredentialCache, tick, get, is_refused,
  ttl, instant_limit, with_room, store_entry, insert_entry, invalidate, new,
}
use authn_kit.Cache.Bounds.{
  IsValid, with_room-lookup, new-IsValid, get-IsValid, insert_entry-IsValid, invalidate-IsValid,
}
use authn_kit.Cache.Hits.{get_iff}

-- A call on the cache, with the readings of the clock that it makes.
pub data Call (U : Type 0) : Type 0 where
  gets : CacheKey → ℕ → Call U
  inserts : CacheKey → U → Option ℕ → ℕ → ℕ → Call U
  invalidates : CacheKey → Call U

-- a value for each key, and the time at which it expires
abbrev pub Ledger : Type 0 → Type 0
Ledger U = CacheKey → Option (U × ℕ)

module _ {U : Type 0} where
  abbrev pub step : Call U → CredentialCache U → CredentialCache U
  step (gets k now) c = (get k now c).1
  step (inserts k value expires_in now later) c = (insert_entry k value expires_in now later c).1
  step (invalidates k) c = invalidate k c

  abbrev pub run : List (Call U) → CredentialCache U → CredentialCache U
  run [] c = c
  run (call ∷ calls) c = run calls (step call c)

  -- An insertion that is refused, or that panics, leaves the ledger as it was.
  abbrev pub note : CacheConfig → Call U → Ledger U → Ledger U
  note config (gets k now) l j = l j
  note config (inserts k value expires_in now later) l j =
      if key_eq k j
        && not (is_refused config expires_in)
        && ltb (later + ttl config expires_in) instant_limit
      then some (value, later + ttl config expires_in)
      else l j
  note config (invalidates k) l j = if key_eq k j then none else l j

  abbrev pub ledger : CacheConfig → List (Call U) → Ledger U → Ledger U
  ledger config [] l = l
  ledger config (call ∷ calls) l = ledger config calls (note config call l)

  -- Every entry of the cache is the ledger's.
  abbrev pub Agrees : CredentialCache U → Ledger U → Type 0
  Agrees c l =
      (j : CacheKey) (e : Entry U)
      → lookup j c.entries ≡ some e
      → l j ≡ some (e.value, e.expires_at)

  get-Agrees :
      (k : CacheKey) (now : ℕ) (c : CredentialCache U) (l : Ledger U)
      → Agrees c l
      → Agrees (get k now c).1 l
  unfolding get tick
  get-Agrees k now c l a j e q = elim (Option-cases (lookup k c.entries)) [
    | inl n ↦ a j e (ground (arith, n, q))
    | inr (f, n) ↦ ground (
      arith,
      n,
      q,
      a j e,
      a k f n,
      key_eq_iff k j,
      lookup-insert k j (record f { last_used = c.clock }) c.entries,
    )
  ]

  pub config-with_room :
      (k : CacheKey) (now : ℕ) (c : CredentialCache U) → (with_room k now c).config ≡ c.config
  unfolding with_room
  config-with_room k now c = ground arith

  pub clock-with_room :
      (k : CacheKey) (now : ℕ) (c : CredentialCache U) → (with_room k now c).clock ≡ c.clock
  unfolding with_room
  clock-with_room k now c = ground arith

  config-step : (call : Call U) (c : CredentialCache U) → (step call c).config ≡ c.config
  unfolding get tick invalidate insert_entry store_entry
  config-step (gets k now) c = ground arith
  config-step (inserts k value expires_in now later) c =
      ground (arith, config-with_room k now (tick c).1)
  config-step (invalidates k) c = refl

  insert-Agrees :
      (k : CacheKey) (value : U) (expires_in : Option ℕ) (now later : ℕ) (c : CredentialCache U)
      (l : Ledger U)
      → IsValid c
      → Agrees c l
      → Agrees
          (insert_entry k value expires_in now later c).1
          (note c.config (inserts k value expires_in now later) l)
  unfolding insert_entry store_entry
  insert-Agrees k value expires_in now later c l v a j e q = ground (
    arith,
    q,
    a j e,
    key_eq_iff k j,
    with_room-lookup k now (tick c).1 j v.distinct,
    lookup-insert k j
        (record {
          value = value;
          expires_at = later + ttl c.config expires_in;
          last_used = (tick c).0;
        })
        (with_room k now (tick c).1).entries,
  )

  pub invalidate-Agrees :
      (k : CacheKey) (c : CredentialCache U) (l : Ledger U)
      → IsValid c
      → Agrees c l
      → Agrees (invalidate k c) (note c.config (invalidates k) l)
  unfolding invalidate
  invalidate-Agrees k c l v a j e q =
      ground (arith, q, a j e, lookup-remove k j c.entries v.distinct)

  step-Agrees :
      (call : Call U) (c : CredentialCache U) (l : Ledger U)
      → IsValid c
      → Agrees c l
      → Agrees (step call c) (note c.config call l)
  step-Agrees (gets k now) c l v a = get-Agrees k now c l a
  step-Agrees (inserts k value expires_in now later) c l v a =
      insert-Agrees k value expires_in now later c l v a
  step-Agrees (invalidates k) c l v a = invalidate-Agrees k c l v a

  step-IsValid :
      (call : Call U) (c : CredentialCache U)
      → c.clock + 1 < 2 ^ 64
      → IsValid c
      → IsValid (step call c)
  step-IsValid (gets k now) c h v = get-IsValid k now c h v
  step-IsValid (inserts k value expires_in now later) c h v =
      insert_entry-IsValid k value expires_in now later c h v
  step-IsValid (invalidates k) c h v = invalidate-IsValid k c v

  clock-step :
      (call : Call U) (c : CredentialCache U)
      → c.clock + 1 < 2 ^ 64
      → (step call c).clock ≤ c.clock + 1
  unfolding get tick invalidate insert_entry store_entry
  clock-step (gets k now) c h = ground arith
  clock-step (inserts k value expires_in now later) c h =
      ground (arith, clock-with_room k now (tick c).1)
  clock-step (invalidates k) c h = omega arith

  run_lem :
      (calls : List (Call U)) (c : CredentialCache U) (l : Ledger U)
      → c.clock + length calls < 2 ^ 64
      → IsValid c
      → Agrees c l
      → IsValid (run calls c)
        × Agrees (run calls c) (ledger c.config calls l)
        × ((run calls c).config ≡ c.config)
  run_lem [] c l h v a = (v, a, refl)
  run_lem (call ∷ calls) c l h v a =
      let c' = step call c in
      let clock = clock-step call c (omega arith) in
      let same = config-step call c in
      let (v', a', e') =
        run_lem calls c' (note c.config call l) (omega arith) (step-IsValid call c (omega arith) v)
          (step-Agrees call c l v a) in
      (
        v',
        subst (λ g. Agrees (run calls c') (ledger g calls (note c.config call l))) same a',
        e' ∙ same,
      )

  -- From an empty cache no sequence of fewer than 2^64 calls makes it hold more than its capacity, a
  -- key twice, or a use later than its clock.
  pub run-IsValid :
      (config : CacheConfig) (calls : List (Call U))
      → length calls < 2 ^ 64
      → IsValid (run calls (new config))
  unfolding new lookup
  run-IsValid config calls h =
      (run_lem calls (new config) (λ _. none) (omega arith) (new-IsValid config) (λ j e q. cc)).0

  -- After any sequence of fewer than 2^64 calls on an empty cache, a hit is the value of the last
  -- accepted insertion under that very key, not invalidated since, and not expired.
  pub run-hit :
      (config : CacheConfig) (calls : List (Call U)) (k : CacheKey) (now : ℕ) (u : U)
      → length calls < 2 ^ 64
      → (get k now (run calls (new config))).0 ≡ some u
      → (x : ℕ) × (ledger config calls (λ _. none) k ≡ some (u, x)) × (now < x)
  unfolding new lookup
  run-hit config calls k now u h q =
      let (v, a, same) =
        run_lem calls (new config) (λ _. none) (omega arith) (new-IsValid config) (λ j e q. cc) in
      let (e, found, value, fresh) = (get_iff k now (run calls (new config)) u).0 q in
      (e.expires_at, rw (← value) (a k e found), fresh)
