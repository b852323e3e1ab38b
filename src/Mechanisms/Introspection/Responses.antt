-- ===== src/Mechanisms/Introspection/Responses.antt =====
-- src/mechanisms/introspection.rs: which responses of the endpoint are accepted.
use authn_kit.Prelude.{
  ◌*◌, ◌≡◌, ◌≢◌, ◌↔◌, ◌⊎◌, inl, inr, refl, Bool, true, false, Option, none, some, List, arith,
  Bool-cases, Option-cases, sym, ap, subst,
}
use mathlib.Core.Option
use authn_kit.Cookie.{second}
use authn_kit.Text.{Text, str}
use authn_kit.Error.{AuthError, status}
use authn_kit.Effect.{ok, err}
use authn_kit.Effect.Laws.{ok_inj}
use authn_kit.Claims.{introspection, new, IdentityClaims, best_effort_username}
use authn_kit.Mechanisms.Introspection.{
  Json, member, fill, identified, overflows, timed, claims_of_object, claims_from_response,
}

active_cases : (o : Option Bool) → (o ≡ none) ⊎ ((o ≡ some false) ⊎ (o ≡ some true))
active_cases none = inl refl
active_cases (some false) = inr (inl refl)
active_cases (some true) = inr (inr refl)

module _ {Value : Type 0} (j : Json Value) where
  -- The response is a JSON object that says that the token is active, and it names somebody. Its
  -- expiry, if it has one, can be represented.
  pub record IsActive (body : Value) (claims : IdentityClaims Value) : Type 0 where
    pub object : List (Text × Value)
    pub is_object : j.as_object body ≡ some object
    pub active : member j j.as_bool (str "active") object ≡ some true
    pub filled :
        ◌≡◌ {A = IdentityClaims Value}
          (record (new introspection) {
            subject = member j j.as_str (str "sub") object;
            preferred_username = member j j.as_str (str "username") object;
            email = member j j.as_str (str "email") object;
            client_id = member j j.as_str (str "client_id") object;
            scope = member j j.as_str (str "scope") object;
            expires_at = Option.map (λ exp. exp * second) (member j j.as_u64 (str "exp") object);
            extra = object;
          })
          claims
    pub names : best_effort_username claims ≢ none
    pub representable : overflows j claims.expires_at ≡ false

  identified_iff :
      (filled claims : IdentityClaims Value)
      → (identified j filled ≡ ok claims)
        ↔ ((filled ≡ claims) × (best_effort_username filled ≢ none))
  unfolding identified
  identified_iff filled claims = elim (Option-cases (best_effort_username filled)) [
    | inl n ↦ ground (arith, n)
    | inr (u, n) ↦
        (λ h. (ok_inj (rw (n, identified) at h), rw n (cc)), λ (e, _). rw (n, identified) (ap ok e))
  ]

  timed_iff :
      (filled claims : IdentityClaims Value)
      → (timed j filled ≡ ok claims) ↔ (
          (filled ≡ claims)
          × (best_effort_username filled ≢ none)
          × (overflows j filled.expires_at ≡ false))
  unfolding timed
  timed_iff filled claims = elim (Bool-cases (overflows j filled.expires_at)) [
    | inl b ↦ ground (arith, b)
    | inr n ↦
        let (to, back) = identified_iff filled claims in
        (
          λ h. let (same, named) = to (rw (n, timed) at h) in (same, named, n),
          λ (same, named, _). rw (n, timed) (back (same, named)),
        )
  ]

  object-ok :
      (map : List (Text × Value)) (claims : IdentityClaims Value)
      → claims_of_object j map ≡ ok claims
      → (member j j.as_bool (str "active") map ≡ some true)
        × (fill j map ≡ claims)
        × (best_effort_username claims ≢ none)
        × (overflows j claims.expires_at ≡ false)
  unfolding claims_of_object
  object-ok map claims h = elim (active_cases (member j j.as_bool (str "active") map)) [
    | inl n ↦ absurd (cc (rw (n, claims_of_object) at h))
    | inr (inl f) ↦ absurd (cc (rw (f, claims_of_object) at h))
    | inr (inr t) ↦
        let (same, named, fits) =
          (timed_iff (fill j map) claims).0 (rw (t, claims_of_object) at h) in
        (
          t,
          same,
          subst (λ c. best_effort_username c ≢ none) same named,
          subst (λ (c : IdentityClaims Value). overflows j c.expires_at ≡ false) same fits,
        )
  ]

  of_active :
      (body : Value) (claims : IdentityClaims Value)
      → IsActive body claims
      → claims_from_response j body ≡ ok claims
  unfolding claims_from_response claims_of_object fill
  of_active body claims a =
      rw (a.is_object, claims_from_response)
        (rw (a.active, claims_of_object)
          ((timed_iff (fill j a.object) claims).1 (
            a.filled,
            subst (λ c. best_effort_username c ≢ none) (sym a.filled) a.names,
            subst (λ (c : IdentityClaims Value). overflows j c.expires_at ≡ false) (sym a.filled)
                a.representable,
          )))

  -- An answer of the endpoint is accepted exactly if it is an object with an `active` that is true and
  -- with an identity, whose expiry can be represented, and its claims are those that its members give.
  pub claims_from_response-ok_iff :
      (body : Value) (claims : IdentityClaims Value)
      → (claims_from_response j body ≡ ok claims) ↔ IsActive body claims
  unfolding claims_from_response fill
  claims_from_response-ok_iff body claims = (
    λ h. elim (Option-cases (j.as_object body)) [
      | inl n ↦ absurd (cc (rw (n, claims_from_response) at h))
      | inr (map, o) ↦
          let (active, filled, names, representable) =
            object-ok map claims (rw (o, claims_from_response) at h) in
          record {
            object = map;
            is_object = o;
            active = active;
            filled = filled;
            names = names;
            representable = representable;
          }
    ],
    of_active body claims,
  )

  identified-status :
      (claims : IdentityClaims Value) (e : AuthError) → identified j claims ≡ err e → status e ≡ 503
  unfolding identified status
  identified-status claims e h = ground (arith, h)

  timed-status :
      (claims : IdentityClaims Value) (e : AuthError) → timed j claims ≡ err e → status e ≡ 503
  unfolding timed
  timed-status claims e h = elim (Bool-cases (overflows j claims.expires_at)) [
    | inl b ↦ absurd (cc (rw (b, timed) at h))
    | inr n ↦ identified-status claims e (rw (n, timed) at h)
  ]

  object-status :
      (map : List (Text × Value)) (e : AuthError)
      → claims_of_object j map ≡ err e
      → ((status e ≡ 401) × (member j j.as_bool (str "active") map ≡ some false)) ⊎ (status e ≡ 503)
  unfolding claims_of_object
  object-status map e h = elim (active_cases (member j j.as_bool (str "active") map)) [
    | inl n ↦ inr (unfold status in ground (arith, rw (n, claims_of_object) at h))
    | inr (inl f) ↦ inl (unfold status in ground (arith, rw (f, claims_of_object) at h), f)
    | inr (inr t) ↦ inr (timed-status (fill j map) e (rw (t, claims_of_object) at h))
  ]

  -- Where the answer is refused with an error, the client is at fault only if the token is not active, and
  -- else the service is not available.
  pub claims_from_response-status :
      (body : Value) (e : AuthError)
      → claims_from_response j body ≡ err e
      → ((status e ≡ 401)
          × ((object : List (Text × Value)) × (j.as_object body ≡ some object)
              × (member j j.as_bool (str "active") object ≡ some false)))
        ⊎ (status e ≡ 503)
  unfolding claims_from_response
  claims_from_response-status body e h = elim (Option-cases (j.as_object body)) [
    | inl n ↦ inr (unfold status in ground (arith, rw (n, claims_from_response) at h))
    | inr (map, o) ↦ elim (object-status map e (rw (o, claims_from_response) at h)) [
      | inl (s, f) ↦ inl (s, (map, o, f))
      | inr s ↦ inr s
    ]
  ]
