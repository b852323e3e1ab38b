-- ===== src/Cache/Shared/Laws.antt =====
-- src/cache.rs: what a shared cache answers.
use authn_kit.Prelude.{
  ℕ, Bool, leb, refl, sym, ap, Bool-cases, ◌+◌, true, false, ◌<◌, ◌≡◌, ◌⊎◌, inl, inr, Option, none,
  some, arith, ◌∙◌, Option-cases,
}
use authn_kit.Effect.{Result, ok, M, pure, Clock, Cell, ◌>>=◌}
use authn_kit.Effect.Laws.{bind-ok}
use authn_kit.Map.{lookup}
use authn_kit.Cache.{
  CacheKey, CredentialCache, Entry, key_Eq, get, ttl, tick, is_refused, is_full, insert_entry,
  store_entry, instant_limit, key_eq_iff,
}
use authn_kit.Cache.Hits.{lookup-insert_entry, get_iff, get_miss}
use authn_kit.Cache.Shared.{get_shared, insert_shared, reading, settle, cached_or}

module _ {W U : Type 0} (clock : Clock W) (cell : Cell W (CredentialCache U)) (k : CacheKey) where
  -- A hit is the value of an entry under the key that has not expired at the reading of the clock.
  pub get_shared-some :
      (w : W) (u : U)
      → (get_shared clock cell k w).0 ≡ ok (some u)
      → (e : Entry U) × (lookup k (cell.load w).entries ≡ some e)
        × (e.value ≡ u)
        × ((clock.instant_now w).0 < e.expires_at)
  unfolding get_shared
  get_shared-some w u h = elim (Option-cases (lookup k (cell.load w).entries)) [
    | inl n ↦
        let missed : ◌≡◌ {A = Result (Option U)} (ok (get k 0 (cell.load w)).0) (ok (some u)) =
          rw (n, get_shared) at h in
        absurd (ground (arith, missed, get_miss k 0 (cell.load w) n))
    | inr (e, n) ↦
        let now = (clock.instant_now w).0 in
        let hit : ◌≡◌ {A = Result (Option U)} (ok (get k now (cell.load w)).0) (ok (some u)) =
          rw (n, get_shared) at h in
        (get_iff k now (cell.load w) u).0 (ground (arith, hit))
  ]

  after_lookup :
      (miss : M W U) (w w' : W) (u : U) (cached : Option U)
      → (get_shared clock cell k w).0 ≡ ok cached
      → (let next : M W U = elim cached [ some user ↦ pure user | none ↦ miss ] in
          (next w').0 ≡ ok u)
      → ((e : Entry U) × (lookup k (cell.load w).entries ≡ some e)
          × (e.value ≡ u)
          × ((clock.instant_now w).0 < e.expires_at))
        ⊎ ((miss w').0 ≡ ok u)
  after_lookup miss w w' u none found rest = inr rest
  after_lookup miss w w' u (some x) found rest =
      let same : x ≡ u = cc rest in inl (get_shared-some w u (found ∙ λ i. ok (some (same i))))

  -- A user is one of an entry that has not expired, or what is done on a miss gives it.
  pub cached_or-ok :
      (miss : M W U) (w : W) (u : U)
      → (cached_or clock cell k miss w).0 ≡ ok u
      → ((e : Entry U) × (lookup k (cell.load w).entries ≡ some e)
          × (e.value ≡ u)
          × ((clock.instant_now w).0 < e.expires_at))
        ⊎ ((miss (get_shared clock cell k w).1).0 ≡ ok u)
  cached_or-ok miss w u h =
      let (cached, found, rest) = bind-ok (get_shared clock cell k) _ w u h in
      after_lookup miss w (get_shared clock cell k w).1 u cached found rest

  -- An insertion that is refused leaves the cache as it was.
  pub insert_shared-refused :
      (value : U) (expires_in : Option ℕ) (w : W)
      → is_refused (cell.load w).config expires_in ≡ true
      → insert_shared clock cell k value expires_in w ≡ (ok tt, cell.store (cell.load w) w)
  unfolding insert_shared insert_entry
  insert_shared-refused value expires_in w h = rw (h, insert_shared) refl

  -- the world in which the clock is read for the expiry
  abbrev pub stored_in : W → W
  stored_in w = (reading clock cell (is_full k (tick (cell.load w)).1) w).1

  -- the end of an insertion, whose readings of the clock are made
  abbrev put : U → Option ℕ → ℕ → ℕ → CredentialCache U → M W (Unit {0})
  put value expires_in now later c w =
      let inserted = insert_entry k value expires_in now later c in
      settle clock cell inserted.0 (cell.store inserted.1 w)

  panics :
      (value : U) (expires_in : Option ℕ) (now later : ℕ) (c : CredentialCache U)
      → is_refused c.config expires_in ≡ false
      → (insert_entry k value expires_in now later c).0
        ≡ leb instant_limit (later + ttl c.config expires_in)
  unfolding insert_entry store_entry
  panics value expires_in now later c h = ground (arith, h)

  put-lookup :
      (keeps : (c : CredentialCache U) (w : W) → cell.load (cell.store c w) ≡ c) (value : U)
      (expires_in : Option ℕ) (now later : ℕ) (c : CredentialCache U) (w : W)
      → is_refused c.config expires_in ≡ false
      → (put value expires_in now later c w).0 ≡ ok tt
      → lookup k (cell.load (put value expires_in now later c w).1).entries
        ≡ some (record {
          value = value;
          expires_at = later + ttl c.config expires_in;
          last_used = c.clock;
        })
  put-lookup keeps value expires_in now later c w h done =
      let inserted = insert_entry k value expires_in now later c in
      let at : Bool → Result (Unit {0}) × W = λ b. settle clock cell b (cell.store inserted.1 w) in
      let said = panics value expires_in now later c h in
      elim (Bool-cases (leb instant_limit (later + ttl c.config expires_in))) [
        | inl b ↦ absurd (cc (ap (λ x. (at x).0) (sym (said ∙ b)) ∙ done))
        | inr b ↦
            ap (λ x. lookup k (cell.load (at x).1).entries) (said ∙ b)
            ∙ ap (λ (x : CredentialCache U). lookup k x.entries) (keeps inserted.1 w)
            ∙ lookup-insert_entry k k value expires_in now later c (h, ground (arith, b))
            ∙ rw ((key_eq_iff k k).1 refl)
      ]

  read_and_put :
      (keeps : (c : CredentialCache U) (w : W) → cell.load (cell.store c w) ≡ c) (value : U)
      (expires_in : Option ℕ) (c : CredentialCache U) (b : Bool) (w : W)
      → is_refused c.config expires_in ≡ false
      → (let run : M W (Unit {0}) = (do
        now ← reading clock cell b
        later ← reading clock cell true
        put value expires_in now later c) in
          (run w).0 ≡ ok tt
          → lookup k (cell.load (run w).1).entries
            ≡ some (record {
              value = value;
              expires_at =
                  (clock.instant_now (reading clock cell b w).1).0 + ttl c.config expires_in;
              last_used = c.clock;
            }))
  read_and_put keeps value expires_in c true w h done =
      put-lookup keeps value expires_in (clock.instant_now w).0
        (clock.instant_now (clock.instant_now w).1).0 c _ h done
  read_and_put keeps value expires_in c false w h done =
      put-lookup keeps value expires_in 0 (clock.instant_now w).0 c _ h done

  -- One that is accepted, and does not panic, leaves an entry that expires when its time to live has
  -- passed since it was stored.
  pub insert_shared-accepted :
      (keeps : (c : CredentialCache U) (w : W) → cell.load (cell.store c w) ≡ c) (value : U)
      (expires_in : Option ℕ) (w : W)
      → is_refused (cell.load w).config expires_in ≡ false
      → (insert_shared clock cell k value expires_in w).0 ≡ ok tt
      → lookup k (cell.load (insert_shared clock cell k value expires_in w).1).entries
        ≡ some (record {
          value = value;
          expires_at = (clock.instant_now (stored_in w)).0 + ttl (cell.load w).config expires_in;
          last_used = (cell.load w).clock;
        })
  unfolding insert_shared
  insert_shared-accepted keeps value expires_in w h done =
      let c = cell.load w in
      rw (h, insert_shared)
        (read_and_put keeps value expires_in c (is_full k (tick c).1) w h
          (rw (h, insert_shared) at done))
