-- ===== src/Oidc/Login/Answers.antt =====
-- src/oidc/login.rs: where a login cannot begin, the error is no redirect.
use authn_kit.Prelude.{◌≡◌, inl, inr, refl, Bool, true, false, any, Sum-cases, ◌||◌}
use authn_kit.Text.{Text, str, is_control, starts_with}
use authn_kit.Effect.{Clock, lift}
use authn_kit.Effect.Redirects.{redirects, if-result, bind-redirects}
use authn_kit.Oidc.Provider.{Library}
use authn_kit.Oidc.Login.{
  ProtectionData, Encoding, AuthorizationEndpoint, LoginFlow, encode, authorize_valid, draw_pkce,
  authorize,
}
use authn_kit.Oidc.Login.Redirect.{
  RedirectPolicy, relative_only, allowlist, is_within_origin, validate_absolute, validate,
}

absolute-redirects :
    (debug : Text → Text) (policy : RedirectPolicy) (to : Text)
    → redirects (validate_absolute debug policy to) ≡ false
unfolding validate_absolute
absolute-redirects debug relative_only to = refl
absolute-redirects debug (allowlist origins) to =
    if-result (any (λ origin. is_within_origin to origin) origins) _ _ refl refl

validate-redirects :
    (debug : Text → Text) (policy : RedirectPolicy) (to : Text)
    → redirects (validate debug policy to) ≡ false
unfolding validate
validate-redirects debug policy to = if-result (any is_control to) _ _ refl (
    if-result (starts_with to (str "/")) _ _
      (if-result (starts_with to (str "//") || starts_with to (str "/\\")) _ _ refl refl)
      (absolute-redirects debug policy to))

encode-redirects : (e : Encoding) (p : ProtectionData) → redirects (encode e p) ≡ false
unfolding encode
encode-redirects e p = elim (Sum-cases (e.to_vec p)) [
  | inl (detail, h) ↦ rw (h, encode) refl
  | inr (json, h) ↦ rw (h, encode) refl
]

module _ {Metadata Client IdToken Value W Challenge Request : Type 0}
    (library : Library Metadata Client IdToken Value W) (clock : Clock W) (debug : Text → Text)
    (e : Encoding) (endpoint : AuthorizationEndpoint Client Challenge Request W)
    (f : LoginFlow Metadata Client W) where
  draw_pkce-redirects :
      (use_pkce : Bool) (w : W)
      → redirects (draw_pkce library clock debug e endpoint f use_pkce w).0 ≡ false
  unfolding draw_pkce
  draw_pkce-redirects true w = refl
  draw_pkce-redirects false w = refl

  authorize_valid-redirects :
      (to : Text) (w : W)
      → redirects (authorize_valid library clock debug e endpoint f to w).0 ≡ false
  unfolding authorize_valid
  authorize_valid-redirects to w =
      bind-redirects (draw_pkce library clock debug e endpoint f f.provider.config.use_pkce) _ w
        (draw_pkce-redirects f.provider.config.use_pkce w)
        (λ drawn v.
          bind-redirects {W = W} (lift (encode e _)) _ _ (encode-redirects e _) (λ value v'. refl))

  -- A login that cannot begin is an error that is no redirect.
  pub authorize-redirects :
      (to : Text) (w : W) → redirects (authorize library clock debug e endpoint f to w).0 ≡ false
  unfolding authorize
  authorize-redirects to w =
      bind-redirects {W = W} (lift (validate debug f.redirect_policy to)) _ w
        (validate-redirects debug f.redirect_policy to) (λ done v. authorize_valid-redirects to v)
