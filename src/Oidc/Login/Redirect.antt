-- ===== src/Oidc/Login/Redirect.antt =====
-- src/oidc/login.rs: where a user may be sent after a login. `debug` is the `Debug` of `str`.
use authn_kit.Prelude.{
  Bool, true, false, ◌||◌, ◌++◌, Option, none, some, List, [], ◌∷◌, any, if◌then◌else◌,
}
use authn_kit.Text.{Text, str, is_control, starts_with, strip_prefix, trim_end_matches}
use authn_kit.Error.{malformed_credential}
use authn_kit.Effect.{Result, ok, err}

pub data RedirectPolicy : Type 0 where
  relative_only : RedirectPolicy
  allowlist : List Text → RedirectPolicy

-- the match on what follows the origin
abbrev pub at_boundary : Option Text → Bool
at_boundary none = false
at_boundary (some []) = true
at_boundary (some (c ∷ s)) =
    starts_with (c ∷ s) (str "/") || starts_with (c ∷ s) (str "?") || starts_with (c ∷ s) (str "#")

unfoldable pub is_within_origin : Text → Text → Bool
unfolding str starts_with
is_within_origin url origin = at_boundary (strip_prefix url (trim_end_matches b'/' origin))

module _ (debug : Text → Text) where
  -- the closure of `validate`
  abbrev pub rejected : Text → Text → Result (Unit {0})
  rejected destination reason = err (
      malformed_credential
        (str "rejected login redirect " ++ debug destination ++ str ": " ++ reason))

  -- the match on the policy, for a destination that is no path
  unfoldable pub validate_absolute : RedirectPolicy → Text → Result (Unit {0})
  unfolding is_within_origin
  validate_absolute relative_only destination =
      rejected destination (str "only relative paths are permitted")
  validate_absolute (allowlist origins) destination =
      if any (λ origin. is_within_origin destination origin) origins
      then ok tt
      else rejected destination (str "origin is not allow-listed")

  unfoldable pub validate : RedirectPolicy → Text → Result (Unit {0})
  unfolding validate_absolute
  validate policy destination =
      if any is_control destination
      then rejected destination (str "contains a control character")
      else if starts_with destination (str "/")
      then (if starts_with destination (str "//") || starts_with destination (str "/\\")
          then rejected destination (str "protocol-relative url")
          else ok tt)
      else validate_absolute policy destination
