-- ===== src/Cache/Threads.antt =====
-- src/cache.rs: calls on a cache that run side by side. A call ticks before it takes the lock, so other
-- calls may come between its tick and what it does behind the lock, which is one step here.
pub mod Linear
use authn_kit.Prelude.{
  ℕ, suc, ◌+◌, ◌≡◌, refl, Bool, true, false, Option, none, some, ltb, ◌==◌, if◌then◌else◌,
}
use authn_kit.Map.{lookup, insert}
use authn_kit.Cache.{
  CacheKey, CacheConfig, key_Eq, Entry, CredentialCache, tick, get, is_refused, ttl, with_room,
  store_entry, insert_entry, invalidate, new,
}
use authn_kit.Cache.Ledger.{Ledger, inserts, invalidates, note}

module _ {U : Type 0} where
  -- what `get` does with its tick behind the lock
  unfoldable pub get_locked : CacheKey → ℕ → ℕ → CredentialCache U → Option U × CredentialCache U
  get_locked k t now c = elim (lookup k c.entries) [
    | none ↦ (none, c)
    | some e ↦
        if ltb now e.expires_at
        then (some e.value, record c { entries = insert k (record e { last_used = t }) c.entries })
        else (none, c)
  ]

  -- what `insert` does with its tick behind the lock
  unfoldable pub insert_locked :
      CacheKey → U → Option ℕ → ℕ → ℕ → ℕ → CredentialCache U → Bool × CredentialCache U
  insert_locked k value expires_in t now later c =
      store_entry k
        (record { value = value; expires_at = later + ttl c.config expires_in; last_used = t })
        (with_room k now c)

  -- Together with the tick these are the calls.
  pub get-get_locked :
      (k : CacheKey) (now : ℕ) (c : CredentialCache U)
      → get k now c ≡ get_locked k (tick c).0 now (tick c).1
  unfolding get get_locked
  get-get_locked k now c = refl

  pub insert_entry-insert_locked :
      (k : CacheKey) (value : U) (expires_in : Option ℕ) (now later : ℕ) (c : CredentialCache U)
      → is_refused c.config expires_in ≡ false
      → insert_entry k value expires_in now later c
        ≡ insert_locked k value expires_in (tick c).0 now later (tick c).1
  unfolding insert_entry insert_locked tick
  insert_entry-insert_locked k value expires_in now later c h = rw h refl

-- a call: not under way, or with its tick and not yet behind the lock
pub data Task (U : Type 0) : Type 0 where
  free : Task U
  getting : CacheKey → ℕ → Task U
  inserting : CacheKey → U → Option ℕ → ℕ → Task U

-- The cache, with how many ticks there were and with what was last put under each key.
pub record Shared (U : Type 0) : Type 0 where
  pub cache : CredentialCache U
  pub ticks : ℕ
  pub ledger : Ledger U

module _ {U : Type 0} where
  -- after a tick
  abbrev pub ticked : Shared U → Shared U
  ticked m = record m { cache = (tick m.cache).1; ticks = suc m.ticks }

  -- One step of a call. An insertion that is refused has none.
  pub data Move : Shared U → Task U → Shared U → Task U → Type 0 where
    begin_get : {m : Shared U} (k : CacheKey) → Move m free (ticked m) (getting k (tick m.cache).0)
    begin_insert :
        {m : Shared U} (k : CacheKey) (value : U) (expires_in : Option ℕ)
        → is_refused m.cache.config expires_in ≡ false
        → Move m free (ticked m) (inserting k value expires_in (tick m.cache).0)
    look :
        {m : Shared U} {k : CacheKey} {t : ℕ} (now : ℕ)
        → Move m (getting k t) (record m { cache = (get_locked k t now m.cache).1 }) free
    put :
        {m : Shared U} {k : CacheKey} {value : U} {expires_in : Option ℕ} {t : ℕ} (now later : ℕ)
        → Move m
            (inserting k value expires_in t)
            (record m {
              cache = (insert_locked k value expires_in t now later m.cache).1;
              ledger = note m.cache.config (inserts k value expires_in now later) m.ledger;
            })
            free
    revoke :
        {m : Shared U} (k : CacheKey)
        → Move m free
            (record m {
              cache = invalidate k m.cache;
              ledger = note m.cache.config (invalidates k) m.ledger;
            })
            free

pub record System (U : Type 0) : Type 0 where
  pub shared : Shared U
  pub task : ℕ → Task U

module _ {U : Type 0} where
  pub data Step (s : System U) : System U → Type 0 where
    pick :
        (t : ℕ) {m : Shared U} {q : Task U}
        → Move s.shared (s.task t) m q
        → Step s (record { shared = m; task = λ u. if u == t then q else s.task u })

  -- an empty cache, and no call under way
  abbrev pub empty : CacheConfig → System U
  empty config = record {
    shared = record { cache = new config; ticks = 0; ledger = λ _. none };
    task = λ _. free;
  }

  pub data Reach (config : CacheConfig) : System U → Type 0 where
    start : Reach config (empty config)
    next : {s t : System U} → Reach config s → Step s t → Reach config t
