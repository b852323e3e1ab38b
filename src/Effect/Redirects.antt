-- ===== src/Effect/Redirects.antt =====
-- Calls whose error, if they fail, sends nobody to a login.
use authn_kit.Prelude.{◌≡◌, ◌≢◌, refl, sym, ap, ◌∙◌, Bool, true, false, if◌then◌else◌, List}
use authn_kit.Text.{Text}
use authn_kit.Cookie.{CookieDirective}
use authn_kit.Error.{AuthError, redirect}
use authn_kit.Effect.{Result, ok, err, panic, M, continue, ◌>>=◌}

abbrev pub is_redirect : AuthError → Bool
is_redirect (redirect location cookies) = true
is_redirect _ = false

module _ {A : Type 0} where
  abbrev pub redirects : Result A → Bool
  redirects (ok a) = false
  redirects (err e) = is_redirect e
  redirects (panic t) = false

  pub if-redirects :
      {W : Type 0} (b : Bool) (m n : M W A) (w : W)
      → redirects (m w).0 ≡ false
      → redirects (n w).0 ≡ false
      → redirects ((if b then m else n) w).0 ≡ false
  if-redirects true m n w h k = h
  if-redirects false m n w h k = k

module _ {W A B : Type 0} where
  continue-redirects :
      (r : Result A) (f : A → M W B) (w : W)
      → redirects r ≡ false
      → ((a : A) → redirects (f a w).0 ≡ false)
      → redirects (continue r f w).0 ≡ false
  continue-redirects (ok a) f w h k = k a
  continue-redirects (err e) f w h k = h
  continue-redirects (panic t) f w h k = refl

  pub bind-redirects :
      (m : M W A) (f : A → M W B) (w : W)
      → redirects (m w).0 ≡ false
      → ((a : A) (w' : W) → redirects (f a w').0 ≡ false)
      → redirects ((m >>= f) w).0 ≡ false
  bind-redirects m f w h k = continue-redirects (m w).0 f (m w).1 h (λ a. k a (m w).1)

pub if-result :
    {A : Type 0} (b : Bool) (r s : Result A)
    → redirects r ≡ false
    → redirects s ≡ false
    → redirects (if b then r else s) ≡ false
if-result true r s h k = h
if-result false r s h k = k

-- An error that is a redirect is not one that is none.
pub redirects-err :
    {A : Type 0} (r : Result A) (location : Text) (cookies : List CookieDirective)
    → redirects r ≡ false
    → r ≢ err (redirect location cookies)
redirects-err r location cookies h k = cc (sym h ∙ ap redirects k)
