-- ===== src/ActixService/Users.antt =====
-- examples/actix_service.rs: which claims become which user.
use authn_kit.Prelude.{◌≡◌, ◌↔◌, ◌⊎◌, inr, true, false, some, get_or, arith}
use authn_kit.Text.{Text}
use authn_kit.Claims.{IdentityClaims, best_effort_username}
use authn_kit.ActixService.{User, is_machine, machine, machine_user, human_user, try_from}

-- the claims of a machine grant, or of a person
abbrev pub Names : {Value : Type 0} → IdentityClaims Value → User → Type 0
Names claims user =
    ((is_machine claims.source ≡ true)
      × (client : Text) × (claims.client_id ≡ some client)
      × (user ≡ machine client))
    ⊎ ((is_machine claims.source ≡ false)
        × (email : Text) × (claims.email ≡ some email)
        × (user ≡ record { email = email; username = get_or claims.preferred_username email }))

module _ {Value : Type 0} (claims : IdentityClaims Value) (user : User) where
  -- Claims become a user exactly if they are those of a machine grant and have a client, which names
  -- the user, or they are of another source and have an email, which is the user's, whose name is the
  -- preferred user name or else the email.
  pub try_from_iff : (try_from claims ≡ inr user) ↔ Names claims user
  unfolding try_from machine_user human_user best_effort_username
  try_from_iff = ground arith
