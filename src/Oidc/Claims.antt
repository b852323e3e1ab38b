-- ===== src/Oidc/Claims.antt =====
-- src/oidc/claims.rs: verified claims of an ID token as identity claims.
use authn_kit.Prelude.{ℕ, ◌*◌, Option, none, some, List, []}
use authn_kit.Text.{Text}
use authn_kit.Cookie.{second}
use authn_kit.Claims.{
  IdentityClaims, id_token, new, with_subject, with_email, with_preferred_username, with_name,
  with_expires_at,
}

-- an `i64`
pub data ℤ : Type 0 where
  pos : ℕ → ℤ
  negsuc : ℕ → ℤ

-- What the source reads of the `IdTokenClaims` of `openidconnect`: `name` is the untagged one, and
-- `object` are the members of the JSON object that the claims serialise to, if they do.
pub record IdTokenClaims (Value : Type 0) : Type 0 where
  pub subject : Text
  pub expiration : ℤ
  pub email : Option Text
  pub preferred_username : Option Text
  pub name : Option Text
  pub object : Option (List (Text × Value))

unfoldable pub to_system_time : ℤ → ℕ
to_system_time (pos n) = n * second
to_system_time (negsuc n) = 0

-- `if let Some(v) = o { identity = set(v) }`
abbrev given : {A : Type 0} → Option Text → (Text → A → A) → A → A
given none set a = a
given (some v) set a = set v a

unfoldable pub flatten_claims : {Value : Type 0} → IdTokenClaims Value → List (Text × Value)
flatten_claims claims = elim claims.object [ none ↦ [] | some members ↦ members ]

unfoldable pub identity_from_id_token_claims :
    {Value : Type 0} → IdTokenClaims Value → IdentityClaims Value
unfolding flatten_claims to_system_time
identity_from_id_token_claims claims =
    let identity =
      with_expires_at (to_system_time claims.expiration)
        (with_subject claims.subject (new id_token)) in
    let identity = given claims.email with_email identity in
    let identity = given claims.preferred_username with_preferred_username identity in
    let identity = given claims.name with_name identity in
    record identity { extra = flatten_claims claims }
