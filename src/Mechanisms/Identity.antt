-- ===== src/Mechanisms/Identity.antt =====
-- The conversion of claims into the application's user, as each mechanism of src/mechanisms makes it:
-- `P::User::try_from(claims).map_err(|e| AuthError::internal(format!("{label}: {e}")))`.
use authn_kit.Prelude.{◌++◌, ◌⊎◌, inl, inr, ◌≡◌, refl}
use authn_kit.Text.{Text, str}
use authn_kit.Error.{internal}
use authn_kit.Effect.{ok, M, pure, fail, ◌>>=◌}
use authn_kit.Outcome.{Verdict}

module _ {U W : Type 0} where
  abbrev pub user_of : Text → Text ⊎ U → M W U
  user_of label (inl e) = fail (internal (label ++ str ": " ++ e))
  user_of label (inr user) = pure user

  -- with `.map(Verdict::Authenticated)`
  abbrev pub verdict_of : Text → Text ⊎ U → M W (Verdict U)
  verdict_of label r = do user ← user_of label r; pure (Verdict.authenticated user)

  pub user_of-ok :
      (label : Text) (r : Text ⊎ U) (w : W) (user : U)
      → (user_of label r w).0 ≡ ok user
      → r ≡ inr user
  user_of-ok label (inl e) w user h = cc
  user_of-ok label (inr x) w user h = cc

  pub verdict_of-ok :
      (label : Text) (r : Text ⊎ U) (w : W) (v : Verdict U)
      → (verdict_of label r w).0 ≡ ok v
      → (user : U) × (r ≡ inr user) × (v ≡ Verdict.authenticated user)
  verdict_of-ok label (inl e) w v h = cc
  verdict_of-ok label (inr user) w v h = (user, refl, cc h)
