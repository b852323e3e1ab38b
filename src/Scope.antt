-- ===== src/Scope.antt =====
-- src/scope.rs: what an application says of the realm of a request.
use authn_kit.Prelude.{Bool, false, Option, none}
use authn_kit.Text.{Text, str}
use authn_kit.Request.{AuthRequest}

-- The trait `AuthScope`, with `Display` among its methods.
pub record AuthScope (S : Type 0) : Type 0 where
  pub is_public : S → Bool
  pub cache_discriminator : S → Option Text
  pub session_cookie_name : S → Text
  pub display : S → Text

-- The trait's default methods, over a `Display`.
unfoldable pub with_defaults : {S : Type 0} → (S → Text) → AuthScope S
with_defaults display = record {
  is_public = λ _. false;
  cache_discriminator = λ _. none;
  session_cookie_name = display;
  display = display;
}

-- The trait `ScopeResolver`.
pub record ScopeResolver (S : Type 0) : Type 0 where
  pub resolve : AuthRequest → S

pub data NoScope : Type 0 where
  no_scope : NoScope

abbrev pub no_scope_scope : AuthScope NoScope
unfolding with_defaults
no_scope_scope = with_defaults (λ _. str "session")

abbrev pub single_scope : ScopeResolver NoScope
single_scope = record { resolve = λ _. no_scope }
