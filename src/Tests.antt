-- ===== src/Tests.antt =====
-- A small application over the crate, at which the theorems are applied.
mod Requests
mod Caches
mod Threads
mod Chains
mod Keys
mod Providers
mod Services
use authn_kit.Prelude.{
  ℕ, suc, ◌*◌, ◌⊎◌, inl, inr, Bool, true, false, Option, none, some, List, [], ◌∷◌,
}
use authn_kit.Text.{Text, str, text_eq}
use authn_kit.Text.Laws.{text_eq_iff}
use authn_kit.Effect.{Cell, Clock}
use authn_kit.Claims.{IdentityClaims}
use authn_kit.Scope.{AuthScope, ScopeResolver, with_defaults}
use authn_kit.Cache.{CacheConfig, CredentialCache, new}
use authn_kit.Cookie.{second}
use authn_kit.Request.{AuthRequest}
use authn_kit.Mechanisms.ApiToken.Static.{IsConstantTimeEq}

pub data Realm : Type 0 where
  lobby office : Realm

abbrev pub realm_name : Realm → Text
realm_name lobby = str "lobby"
realm_name office = str "office"

abbrev pub is_lobby : Realm → Bool
is_lobby lobby = true
is_lobby office = false

instance abbrev pub realm_scope : AuthScope Realm
unfolding with_defaults
realm_scope = record (with_defaults realm_name) {
  is_public = is_lobby;
  cache_discriminator = λ realm. some (realm_name realm);
}

-- `/` is public, and all else is the office's.
abbrev pub realms : ScopeResolver Realm
realms = record { resolve = λ request. elim request.path [ _ ∷ _ ∷ _ ↦ office | _ ↦ lobby ] }

-- The world: a clock that advances at each reading of the instant, and one cache.
pub record World : Type 0 where
  pub time : ℕ
  pub cached : CredentialCache Text

abbrev pub small : CacheConfig
small = record { refresh_margin = 0; fallback_ttl = 60 * second; max_entries = 2 }

abbrev pub morning : World
unfolding new
morning = record { time = 5; cached = new small }

abbrev pub cell : Cell World (CredentialCache Text)
cell = record { load = λ w. w.cached; store = λ c w. record w { cached = c } }

abbrev pub clock : Clock World
clock = record {
  instant_now = λ w. (w.time, record w { time = suc w.time });
  system_now = λ w. (w.time, w);
}

-- The user is the subject of the claims.
abbrev pub try_from : IdentityClaims Text → Text ⊎ Text
try_from claims = elim claims.subject [ none ↦ inl (str "no subject") | some s ↦ inr s ]

abbrev pub text_eq-IsConstantTimeEq : IsConstantTimeEq text_eq
text_eq-IsConstantTimeEq = record { decides = λ x y _. text_eq_iff x y }
