-- ===== src/Mechanisms/Bearer/Accepted.antt =====
-- src/mechanisms/bearer.rs: which users the authenticator authenticates.
use authn_kit.Prelude.{◌≡◌, ◌↔◌, ◌⊎◌, inl, inr, refl, Bool-cases, ap, sym, ◌∙◌}
use authn_kit.Text.{Text}
use authn_kit.Effect.{ok, Clock}
use authn_kit.Effect.Laws.{bind-ok, ok-bind}
use authn_kit.Claims.{IdentityClaims}
use authn_kit.Credential.{Credential, bearer}
use authn_kit.Outcome.{Verdict}
use authn_kit.Authenticator.{AuthContext}
use authn_kit.Oidc.Provider.{Library, OidcProvider, present, verify_id_token}
use authn_kit.Mechanisms.Identity.{verdict_of-ok}
use authn_kit.Mechanisms.Bearer.{is_compact_jws, verify_bearer, authenticate}
use authn_kit.Mechanisms.Bearer.Jws.{IsJws, is_compact_jws_iff}

module _ {Metadata Client IdToken Value U S W : Type 0}
    (library : Library Metadata Client IdToken Value W) (clock : Clock W)
    (try_from : IdentityClaims Value → Text ⊎ U) (provider : OidcProvider Metadata Client W)
    (ctx : AuthContext S) where
  -- The credential is a bearer token that is a compact JWS, and an ID token with a nonce, which is
  -- verified in the world `w`, and whose claims convert to the user.
  abbrev pub IsBearer : W → U → Type 0
  IsBearer w u =
      (token : Text) × (claims : IdentityClaims Value) × (ctx.credential ≡ bearer token)
      × IsJws token
      × ((verify_id_token library clock provider token present w).0 ≡ ok claims)
      × (try_from claims ≡ inr u)

  verify_bearer-ok :
      (token : Text) (w : W) (u : U)
      → (verify_bearer library clock try_from provider token w).0 ≡ ok (Verdict.authenticated u)
      → (claims : IdentityClaims Value) × ((verify_id_token library clock provider token present
            w).0
          ≡ ok claims)
        × (try_from claims ≡ inr u)
  unfolding verify_bearer
  verify_bearer-ok token w u h =
      let (claims, verified, rest) =
        bind-ok (verify_id_token library clock provider token present) _ w _ h in
      let (user, converts, same) = verdict_of-ok _ (try_from claims) _ _ rest in
      let named : u ≡ user = cc same in (claims, verified, converts ∙ ap inr (sym named))

  ok-verify_bearer :
      (token : Text) (claims : IdentityClaims Value) (w : W) (u : U)
      → (verify_id_token library clock provider token present w).0 ≡ ok claims
      → try_from claims ≡ inr u
      → (verify_bearer library clock try_from provider token w).0 ≡ ok (Verdict.authenticated u)
  unfolding verify_bearer
  ok-verify_bearer token claims w u verified converts =
      ap (λ r. r.0)
        (ok-bind (verify_id_token library clock provider token present) _ w claims verified)
      ∙ rw converts refl

  made :
      (c : Credential) (w : W) (u : U)
      → c ≡ ctx.credential
      → (authenticate library clock try_from provider (record ctx { credential = c }) w).0
        ≡ ok (Verdict.authenticated u)
      → IsBearer w u
  unfolding authenticate
  made (bearer token) w u e h = elim (Bool-cases (is_compact_jws token)) [
    | inl j ↦
        let (claims, verified, converts) = verify_bearer-ok token w u (rw (j, authenticate) at h) in
        (token, claims, sym e, (is_compact_jws_iff token).0 j, verified, converts)
    | inr n ↦ absurd (cc (rw (n, authenticate) at h))
  ]
  made _ w u e h = cc h

  -- A user is authenticated exactly if the credential is a bearer token that is a compact JWS, and an
  -- ID token that is verified and carries a nonce, and whose claims convert to the user.
  pub authenticate-IsBearer :
      (w : W) (u : U)
      → ((authenticate library clock try_from provider ctx w).0 ≡ ok (Verdict.authenticated u))
        ↔ IsBearer w u
  unfolding authenticate
  authenticate-IsBearer w u = (
    made ctx.credential w u refl,
    λ (token, claims, c, j, verified, converts).
        rw (c, authenticate)
          (rw ((is_compact_jws_iff token).1 j)
            (ok-verify_bearer token claims w u verified converts)),
  )
