-- ===== src/Cache/Shared.antt =====
-- src/cache.rs: `get` and `insert` on a cache that an authenticator shares between calls. Each holds
-- the lock throughout; the clock is read only where the source reads it.
pub mod Laws
use authn_kit.Prelude.{ℕ, Bool, true, false, not, ◌&&◌, Option, if◌then◌else◌, is_some}
use authn_kit.Text.{str}
use authn_kit.Effect.{Result, ok, panic, M, pure, run, ◌>>=◌, ◌>>◌, Cell, Clock, read, write}
use authn_kit.Map.{lookup}
use authn_kit.Cache.{
  CacheKey, CredentialCache, key_Eq, tick, get, is_refused, is_full, insert_entry,
}

module _ {W U : Type 0} (clock : Clock W) (cell : Cell W (CredentialCache U)) where
  -- a reading, where the code makes one
  abbrev pub reading : Bool → M W ℕ
  reading wanted = if wanted then run clock.instant_now else pure 0

  abbrev pub settle : Bool → M W (Unit {0})
  settle true w = (panic (str "overflow when adding duration to instant"), w)
  settle false w = (ok tt, w)

  unfoldable pub get_shared : CacheKey → M W (Option U)
  get_shared k = do
    c ← read cell
    now ← reading (is_some (lookup k c.entries))
    write cell (get k now c).1
    pure (get k now c).0

  unfoldable pub insert_shared : CacheKey → U → Option ℕ → M W (Unit {0})
  insert_shared k value expires_in = do
    c ← read cell
    let accepted = not (is_refused c.config expires_in)
    now ← reading (accepted && is_full k (tick c).1)
    later ← reading accepted
    let inserted = insert_entry k value expires_in now later c
    write cell inserted.1
    settle inserted.0

  -- `if let Some(user) = self.cache.get(&key) { return Ok(user); }`, and what follows it
  abbrev pub cached_or : CacheKey → M W U → M W U
  cached_or k miss = do
    cached ← get_shared k
    elim cached [ Option.some user ↦ pure user | Option.none ↦ miss ]
