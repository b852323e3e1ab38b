-- ===== src/Claims.antt =====
-- src/claims.rs: identity claims, whatever mechanism produced them. `Value` is `serde_json::Value`;
-- a `SystemTime` is its nanoseconds since the Unix epoch.
use authn_kit.Prelude.{ℕ, Option, none, some, or_else, List, []}
use authn_kit.Text.{Text, split_whitespace}
use authn_kit.Map.{lookup, insert, text_Eq}

pub data ClaimSource : Type 0 where
  id_token access_token introspection client_credentials static_token : ClaimSource

pub record IdentityClaims (Value : Type 0) : Type 0 where
  pub subject : Option Text
  pub email : Option Text
  pub preferred_username : Option Text
  pub name : Option Text
  pub client_id : Option Text
  pub scope : Option Text
  pub expires_at : Option ℕ
  pub source : ClaimSource
  pub extra : List (Text × Value)

module _ {Value : Type 0} where
  unfoldable pub new : ClaimSource → IdentityClaims Value
  new source = record {
    subject = none;
    email = none;
    preferred_username = none;
    name = none;
    client_id = none;
    scope = none;
    expires_at = none;
    source = source;
    extra = [];
  }

  -- `from_value` is `serde_json::from_value(v).ok()` at the type asked for.
  unfoldable pub extra_claim :
      {T : Type 0} → (Value → Option T) → Text → IdentityClaims Value → Option T
  unfolding lookup
  extra_claim from_value name c = elim (lookup name c.extra) [ none ↦ none | some v ↦ from_value v ]

  unfoldable pub scopes : IdentityClaims Value → List Text
  scopes c = elim c.scope [ none ↦ [] | some s ↦ split_whitespace s ]

  unfoldable pub best_effort_username : IdentityClaims Value → Option Text
  best_effort_username c =
      or_else (or_else (or_else c.preferred_username c.email) c.subject) c.client_id

  unfoldable pub with_subject : Text → IdentityClaims Value → IdentityClaims Value
  with_subject subject c = record c { subject = some subject }

  unfoldable pub with_email : Text → IdentityClaims Value → IdentityClaims Value
  with_email email c = record c { email = some email }

  unfoldable pub with_preferred_username : Text → IdentityClaims Value → IdentityClaims Value
  with_preferred_username username c = record c { preferred_username = some username }

  unfoldable pub with_name : Text → IdentityClaims Value → IdentityClaims Value
  with_name name c = record c { name = some name }

  unfoldable pub with_client_id : Text → IdentityClaims Value → IdentityClaims Value
  with_client_id client_id c = record c { client_id = some client_id }

  unfoldable pub with_scope : Text → IdentityClaims Value → IdentityClaims Value
  with_scope scope c = record c { scope = some scope }

  unfoldable pub with_expires_at : ℕ → IdentityClaims Value → IdentityClaims Value
  with_expires_at expires_at c = record c { expires_at = some expires_at }

  unfoldable pub with_extra : Text → Value → IdentityClaims Value → IdentityClaims Value
  unfolding insert
  with_extra name value c = record c { extra = insert name value c.extra }
