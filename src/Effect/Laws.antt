-- ===== src/Effect/Laws.antt =====
-- Taking a successful chain of calls apart.
use authn_kit.Prelude.{◌≡◌, refl, ap}
use authn_kit.Effect.{Result, ok, err, panic, M, continue, ◌>>=◌}

module _ {W A B : Type 0} where
  continue-ok :
      (r : Result A) (f : A → M W B) (w : W) (b : B)
      → (continue r f w).0 ≡ ok b
      → (a : A) × (r ≡ ok a) × ((f a w).0 ≡ ok b)
  continue-ok (ok a) f w b h = (a, refl, h)
  continue-ok (err e) f w b h = cc
  continue-ok (panic t) f w b h = cc

  pub bind-ok :
      (m : M W A) (f : A → M W B) (w : W) (b : B)
      → ((m >>= f) w).0 ≡ ok b
      → (a : A) × ((m w).0 ≡ ok a) × ((f a (m w).1).0 ≡ ok b)
  bind-ok m f w b h = continue-ok (m w).0 f (m w).1 b h

  -- A call that follows one that returns a value runs on that value.
  pub ok-bind :
      (m : M W A) (f : A → M W B) (w : W) (a : A) → (m w).0 ≡ ok a → (m >>= f) w ≡ f a (m w).1
  ok-bind m f w a h = ap (λ r. continue r f (m w).1) h

-- A value that is returned is the one that was given.
pub ok_inj : {A : Type 0} {a b : A} → ◌≡◌ {A = Result A} (ok a) (ok b) → a ≡ b
ok_inj h = cc
