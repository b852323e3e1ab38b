-- ===== src/Mechanisms/Disabled.antt =====
-- src/mechanisms/disabled.rs: an authenticator that resolves every request to one identity.
use authn_kit.Prelude.{◌⊎◌}
use authn_kit.Text.{Text, str}
use authn_kit.Effect.{M}
use authn_kit.Claims.{
  IdentityClaims, static_token, with_subject, with_preferred_username, with_email,
}
use authn_kit.Claims
use authn_kit.Outcome.{Verdict}
use authn_kit.Mechanisms.Identity.{verdict_of}
use authn_kit.Authenticator.{Authenticator, AuthContext}

pub record DisabledAuthenticator (Value : Type 0) : Type 0 where
  pub claims : IdentityClaims Value

unfoldable pub new : {Value : Type 0} → IdentityClaims Value → DisabledAuthenticator Value
new claims = record { claims = claims }

unfoldable pub development : {Value : Type 0} → DisabledAuthenticator Value
unfolding new
development = new (
    with_email (str "authn-disabled@invalid") (
      with_preferred_username (str "authn-disabled")
        (with_subject (str "authn-disabled") (Claims.new static_token))))

-- `try_from` is the application's conversion of claims into its user; a refusal is its message.
module _ {Value U S W : Type 0} (try_from : IdentityClaims Value → Text ⊎ U) where
  unfoldable pub authenticate : DisabledAuthenticator Value → AuthContext S → M W (Verdict U)
  authenticate d ctx =
      verdict_of (str "disabled-auth identity could not be converted") (try_from d.claims)

  unfoldable pub disabled : DisabledAuthenticator Value → Authenticator U S W
  disabled d = record { name = str "disabled"; authenticate = authenticate d }
