-- ===== src/Mechanisms/Bearer.antt =====
-- src/mechanisms/bearer.rs: `Authorization: Bearer <jwt>` validated as an OIDC ID token.
pub mod Jws
pub mod Order
pub mod Accepted
use authn_kit.Prelude.{Bool, true, false, not, ◌&&◌, ◌⊎◌, List, [], ◌∷◌, is_empty, if◌then◌else◌}
use authn_kit.Text.{Text, str, split, split_by}
use authn_kit.Effect.{M, pure, Clock, ◌>>=◌}
use authn_kit.Claims.{IdentityClaims}
use authn_kit.Credential.{Credential, bearer}
use authn_kit.Outcome.{Verdict}
use authn_kit.Authenticator.{Authenticator, AuthContext}
use authn_kit.Oidc.Provider.{Library, OidcProvider, present, verify_id_token}
use authn_kit.Mechanisms.Identity.{verdict_of}

-- the match of `is_compact_jws` on what the iterator yields first
abbrev pub has_three : List Text → Bool
has_three (a ∷ b ∷ c ∷ []) = not (is_empty a) && not (is_empty b) && not (is_empty c)
has_three _ = false

unfoldable pub is_compact_jws : Text → Bool
unfolding split_by
is_compact_jws token = has_three (split b'.' token)

-- A `BearerAuthenticator` is its provider.
module _ {Metadata Client IdToken Value U W : Type 0}
    (library : Library Metadata Client IdToken Value W) (clock : Clock W)
    (try_from : IdentityClaims Value → Text ⊎ U) (provider : OidcProvider Metadata Client W) where
  -- what follows the shape of the token
  unfoldable pub verify_bearer : Text → M W (Verdict U)
  verify_bearer token = do
    claims ← verify_id_token library clock provider token present
    verdict_of (str "bearer identity conversion") (try_from claims)

  unfoldable pub authenticate : {S : Type 0} → AuthContext S → M W (Verdict U)
  unfolding is_compact_jws verify_bearer
  authenticate ctx = elim ctx.credential [
    | bearer token ↦
        if is_compact_jws token then verify_bearer token else pure Verdict.not_applicable
    | _ ↦ pure Verdict.not_applicable
  ]

  unfoldable pub bearer_authenticator : {S : Type 0} → Authenticator U S W
  unfolding authenticate
  bearer_authenticator = record { name = str "bearer"; authenticate = authenticate }
