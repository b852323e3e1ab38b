-- ===== src/Debug/Secrets.antt =====
-- The `Debug` of src/credential.rs and src/mechanisms: secrets are not shown.
use authn_kit.Prelude.{suc, ◌≡◌, refl, List, [], ◌∷◌, map, length, ap, sym}
use authn_kit.Text.{Text, str, to_decimal}
use authn_kit.Credential.{Credential, bearer, basic, other, malformed}
use authn_kit.Mechanisms.ApiToken.{StaticToken, ApiTokenAuthenticator, token_count}
use authn_kit.Mechanisms.Introspection.{IntrospectionValidator}
use authn_kit.Debug.{debug_credential, debug_api_token, debug_validator, finish, debug_option}

-- a credential without its secret
abbrev erased : Credential → Credential
erased (bearer token) = bearer []
erased (basic id secret) = basic id []
erased (other scheme value) = other scheme []
erased (malformed scheme detail) = malformed scheme detail
erased Credential.none = Credential.none

abbrev hidden : {Value : Type 0} → StaticToken Value → StaticToken Value
hidden t = record t { secret = [] }

length-map : {A B : Type 0} (f : A → B) (l : List A) → length (map f l) ≡ length l
length-map f [] = refl
length-map f (x ∷ l) = ap suc (length-map f l)

debug_erased :
    (quoted : Text → Text) (c : Credential)
    → debug_credential quoted c ≡ debug_credential quoted (erased c)
unfolding debug_credential
debug_erased quoted (bearer token) = refl
debug_erased quoted (basic id secret) = refl
debug_erased quoted (other scheme value) = refl
debug_erased quoted (malformed scheme detail) = refl
debug_erased quoted Credential.none = refl

-- `{:?}` shows of a credential, of an authenticator for api tokens and of a validator what it shows
-- where all secrets are erased: the token, the password or the value of an unknown scheme, the
-- secrets of the static tokens, and the header for the introspection endpoint.
pub debug-erased :
    {U Value W : Type 0} (quoted : Text → Text) (c : Credential)
    (a : ApiTokenAuthenticator U Value W) (v : IntrospectionValidator)
    → (debug_credential quoted c ≡ debug_credential quoted (erased c))
      × (debug_api_token quoted a
          ≡ debug_api_token quoted (record a { tokens = map hidden a.tokens }))
      × (debug_validator quoted v ≡ debug_validator quoted (record v { auth_header = [] }))
unfolding debug_api_token debug_validator token_count
debug-erased quoted c a v = (
  debug_erased quoted c,
  ap
      (λ n. finish (str "ApiTokenAuthenticator") (
        (str "prefix", quoted a.prefix)
        ∷ (str "static_tokens", to_decimal n)
        ∷ (str "fallback", debug_option quoted (mathlib.Core.Option.map (λ v. v.name) a.fallback))
        ∷ []))
      (sym (length-map hidden a.tokens)),
  refl,
)
