-- ===== src/Effect.antt =====
-- What a call of the crate can do: return a value or an `AuthError`, or panic where an operation of
-- the standard library does, and change the world `W`, which is all that stands outside of the
-- values at hand (shared cells, clocks, the network). The world is kept when a call fails.

pub mod Laws
pub mod Redirects
use authn_kit.Prelude.{ℕ}
use authn_kit.Text.{Text}
use authn_kit.Error.{AuthError}

pub data Result (A : Type 0) : Type 0 where
  ok : A → Result A
  err : AuthError → Result A
  panic : Text → Result A

abbrev pub M : Type 0 → Type 0 → Type 0
M W A = W → Result A × W

module _ {W : Type 0} where
  abbrev pub pure : {A : Type 0} → A → M W A
  pure a w = (ok a, w)

  abbrev pub fail : {A : Type 0} → AuthError → M W A
  fail e w = (err e, w)

  abbrev pub lift : {A : Type 0} → Result A → M W A
  lift r w = (r, w)

  -- an operation that cannot fail, such as a clock's reading
  abbrev pub run : {A : Type 0} → (W → A × W) → M W A
  run f w = (ok (f w).0, (f w).1)

module _ {W A B : Type 0} where
  abbrev pub continue : Result A → (A → M W B) → M W B
  continue (ok a) f w = f a w
  continue (err e) f w = (err e, w)
  continue (panic t) f w = (panic t, w)

  infixl 5 ◌>>=◌ ◌>>◌
  abbrev pub ◌>>=◌ : M W A → (A → M W B) → M W B
  ◌>>=◌ m f w = let (r, w') = m w in continue r f w'

  abbrev pub ◌>>◌ : M W A → M W B → M W B
  m >> n = m >>= λ _. n

-- A shared, mutable place of the world, such as what an `RwLock` guards.
pub record Cell (W S : Type 0) : Type 0 where
  pub load : W → S
  pub store : S → W → W

-- `Instant::now()` and `SystemTime::now()`; time passes in the world as it will.
pub record Clock (W : Type 0) : Type 0 where
  pub instant_now : W → ℕ × W
  pub system_now : W → ℕ × W

module _ {W S : Type 0} where
  abbrev pub read : Cell W S → M W S
  read cell w = (ok (cell.load w), w)

  abbrev pub write : Cell W S → S → M W (Unit {0})
  write cell s w = (ok tt, cell.store s w)
