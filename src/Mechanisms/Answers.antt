-- ===== src/Mechanisms/Answers.antt =====
-- Code of a mechanism that, once it is reached, does not decline any more: it authenticates, fails
-- or panics.
use authn_kit.Prelude.{◌≢◌, ◌⊎◌, inl, inr}
use authn_kit.Text.{Text}
use authn_kit.Error.{AuthError}
use authn_kit.Effect.{Result, ok, err, panic, M, pure, fail, continue, ◌>>=◌}
use authn_kit.Outcome.{Verdict}
use authn_kit.Mechanisms.Identity.{verdict_of}

abbrev pub NeverDeclines : {U W : Type 0} → M W (Verdict U) → Type 0
NeverDeclines {W = W} m = (w : W) → (m w).0 ≢ ok Verdict.not_applicable

module _ {U W : Type 0} where
  pub pure-NeverDeclines : (user : U) → NeverDeclines {W = W} (pure (Verdict.authenticated user))
  pure-NeverDeclines user w h = cc

  pub fail-NeverDeclines : (e : AuthError) → NeverDeclines {U = U} {W = W} (fail e)
  fail-NeverDeclines e w h = cc

  pub verdict_of-NeverDeclines :
      (label : Text) (r : Text ⊎ U) → NeverDeclines {W = W} (verdict_of label r)
  verdict_of-NeverDeclines label (inl e) w h = cc
  verdict_of-NeverDeclines label (inr user) w h = cc

  continue-NeverDeclines :
      {A : Type 0} (r : Result A) (f : A → M W (Verdict U))
      → ((a : A) → NeverDeclines (f a))
      → NeverDeclines (continue r f)
  continue-NeverDeclines (ok a) f h w e = h a w e
  continue-NeverDeclines (err d) f h w e = cc
  continue-NeverDeclines (panic t) f h w e = cc

  -- Only the end of a chain of calls counts.
  pub bind-NeverDeclines :
      {A : Type 0} (m : M W A) (f : A → M W (Verdict U))
      → ((a : A) → NeverDeclines (f a))
      → NeverDeclines (m >>= f)
  bind-NeverDeclines m f h w = continue-NeverDeclines (m w).0 f h (m w).1
