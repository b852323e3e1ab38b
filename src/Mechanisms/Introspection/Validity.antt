-- ===== src/Mechanisms/Introspection/Validity.antt =====
-- src/mechanisms/introspection.rs: which keys are valid.
use authn_kit.Prelude.{◌≡◌, ◌↔◌, ◌⊎◌, inl, inr, refl, true, Option, ◌∷◌, Bool-cases, []}
use authn_kit.Text.{Text, str}
use authn_kit.Effect.{ok}
use authn_kit.Effect.Laws.{bind-ok}
use authn_kit.Claims.{IdentityClaims}
use authn_kit.Mechanisms.Introspection.{
  Json, Http, IntrospectionValidator, received, parsed, read_response, validate,
}
use authn_kit.Mechanisms.Introspection.Responses.{IsActive, claims_from_response-ok_iff}

module _ {Value : Type 0} (j : Json Value) {Response W : Type 0} (http : Http Response Value W)
    (v : IntrospectionValidator) where
  received-ok :
      (r : Text ⊎ Response) (response : Response) (w : W)
      → (received j http v r w).0 ≡ ok response
      → (r ≡ inr response) × ((received j http v r w).1 ≡ w)
  received-ok (inl e) response w h = cc
  received-ok (inr r) response w h = (cc, refl)

  parsed-ok :
      (r : Text ⊎ Value) (body : Value) (w : W) → (parsed j http v r w).0 ≡ ok body → r ≡ inr body
  parsed-ok (inl e) body w h = cc
  parsed-ok (inr r) body w h = cc

  read_response-ok :
      (response : Response) (claims : IdentityClaims Value) (w : W)
      → (read_response j http v response w).0 ≡ ok claims
      → (body : Value) × (http.is_success response ≡ true)
        × ((http.json response w).0 ≡ inr body)
        × IsActive j body claims
  unfolding read_response
  read_response-ok response claims w h = elim (Bool-cases (http.is_success response)) [
    | inr n ↦ absurd (cc (rw (n, read_response) at h))
    | inl b ↦
        let read = rw (b, read_response) at h in
        let (body, found, rest) =
          bind-ok (parsed j http v (http.json response w).0) _ (http.json response w).1 claims
            read in
        (
          body,
          b,
          parsed-ok (http.json response w).0 body _ found,
          (claims_from_response-ok_iff j body claims).0 rest,
        )
  ]

  -- The endpoint answers this key's form, with the configured authorization, by a success whose body
  -- says that the token is active, and whose members are the claims.
  abbrev pub IsAnswered : Text → W → IdentityClaims Value → Type 0
  IsAnswered api_key w claims =
      let (answer, w') = http.post_form v.endpoint v.auth_header ((str "token", api_key) ∷ []) w in
      (response : Response) × (body : Value) × (answer ≡ inr response)
      × (http.is_success response ≡ true)
      × ((http.json response w').0 ≡ inr body)
      × IsActive j body claims

  validate-ok :
      (api_key : Text) (scope : Option Text) (w : W) (claims : IdentityClaims Value)
      → (validate j http v api_key scope w).0 ≡ ok claims
      → IsAnswered api_key w claims
  unfolding validate
  validate-ok api_key scope w claims h =
      let asked = http.post_form v.endpoint v.auth_header ((str "token", api_key) ∷ []) w in
      let (response, found, rest) = bind-ok (received j http v asked.0) _ asked.1 claims h in
      let (answer, stays) = received-ok asked.0 response asked.1 found in
      let (body, success, read, active) =
        read_response-ok response claims asked.1 (rw stays at rest) in
      (response, body, answer, success, read, active)

  IsAnswered-ok :
      (api_key : Text) (scope : Option Text) (w : W) (claims : IdentityClaims Value)
      → IsAnswered api_key w claims
      → (validate j http v api_key scope w).0 ≡ ok claims
  unfolding validate read_response
  IsAnswered-ok api_key scope w claims (response, body, answer, success, read, active) =
      rw (answer, validate)
        (rw (success, read_response)
          (rw read ((claims_from_response-ok_iff j body claims).1 active)))

  -- A key is valid exactly if the endpoint answers this key's form, with the configured
  -- authorization, by a success whose body says that it is active, with an identity and an expiry
  -- that can be represented; the members of that body are the claims. The scope plays no part.
  pub validate-IsAnswered :
      (api_key : Text) (scope : Option Text) (w : W) (claims : IdentityClaims Value)
      → ((validate j http v api_key scope w).0 ≡ ok claims) ↔ IsAnswered api_key w claims
  validate-IsAnswered api_key scope w claims =
      (validate-ok api_key scope w claims, IsAnswered-ok api_key scope w claims)
