-- ===== src/Mechanisms/Basic/Decisions.antt =====
-- src/mechanisms/basic.rs: what the authenticator answers, by the credential and the header.
use authn_kit.Prelude.{
  ℕ, ◌≡◌, ◌≢◌, ◌⊎◌, inl, inr, refl, true, false, Option, none, some, List, arith, Bool-cases,
  Option-cases, ◌↔◌, ◌≢◌, ◌++◌, if◌then◌else◌, ap, sym, ◌∙◌,
}
use authn_kit.Text.{Text, str, text_eq}
use authn_kit.Text.Laws.{text_eq_iff}
use authn_kit.Effect.{ok, M, pure, Clock, ◌>>=◌}
use authn_kit.Effect.Laws.{bind-ok, ok_inj}
use authn_kit.Claims.{IdentityClaims}
use authn_kit.Request.{header}
use authn_kit.Credential.{Credential, basic}
use authn_kit.Scope.{AuthScope}
use authn_kit.Outcome.{Verdict}
use authn_kit.Cache.{key_Eq}
use authn_kit.Authenticator.{AuthContext}
use authn_kit.Oidc.Provider.{Library}
use authn_kit.Oidc.Tokens.{TokenEndpoint}
use authn_kit.Mechanisms.Basic.{BasicAuthenticator, grant_type_header, grant, authenticate}
use authn_kit.Error.{AuthError, status, unsupported, malformed_credential}
use authn_kit.Effect.{err}
use authn_kit.Mechanisms.Answers.{bind-NeverDeclines, pure-NeverDeclines}
use authn_kit.Mechanisms.Basic.Grants.{
  ByPassword, ByMachine, password_grant-ok, client_credentials_grant-ok,
}

-- the pair that a credential presents
abbrev pub pair_of : Credential → Option (Text × Text)
pair_of (basic id secret) = some (id, secret)
pair_of _ = none

module _ {Metadata Client IdToken Value Request Response U W : Type 0}
    (library : Library Metadata Client IdToken Value W)
    (endpoint : TokenEndpoint Client Request Response W) (hash : Text → List ℕ) (clock : Clock W)
    (try_from : IdentityClaims Value → Text ⊎ U) (a : BasicAuthenticator Metadata Client U W) where
  -- A user is given by the password grant only if the request asks for it and it is enabled, and by
  -- the machine grant if the request asks for that or for none.
  abbrev pub Granted : Option Text → Option Text → Text → Text → W → U → Type 0
  Granted kind scope id secret w u =
      (((kind ≡ none) ⊎ (kind ≡ some (str "client_credentials")))
        × ByMachine library endpoint hash clock try_from a scope id secret w u)
      ⊎ ((kind ≡ some (str "password"))
          × (a.allow_password_grant ≡ true)
          × ByPassword library endpoint hash clock try_from a scope id secret w u)

  grant-ok :
      (kind scope : Option Text) (id secret : Text) (w : W) (u : U)
      → (grant library endpoint hash clock try_from a kind scope id secret w).0 ≡ ok u
      → Granted kind scope id secret w u
  unfolding grant
  grant-ok none scope id secret w u h = inl (
    inl refl,
    client_credentials_grant-ok library endpoint hash clock try_from a scope id secret w u h,
  )
  grant-ok (some kind) scope id secret w u h =
      elim (Bool-cases (text_eq kind (str "client_credentials"))) [
        | inl m ↦ inl (
          inr (ap some ((text_eq_iff kind _).0 m)),
          client_credentials_grant-ok library endpoint hash clock try_from a scope id secret w u
              (rw (m, grant) at h),
        )
        | inr m ↦ elim (Bool-cases (text_eq kind (str "password"))) [
          | inl q ↦ elim (Bool-cases a.allow_password_grant) [
            | inl allowed ↦ inr (
              ap some ((text_eq_iff kind _).0 q),
              allowed,
              password_grant-ok library endpoint hash clock try_from a scope id secret w u
                  (rw (m, q, allowed, grant) at h),
            )
            | inr refused ↦ absurd (ground (arith, m, q, refused, h))
          ]
          | inr q ↦ absurd (ground (arith, m, q, h))
        ]
      ]

  -- the error of a grant that is not available
  abbrev refusal : Text → AuthError
  refusal kind =
      if text_eq kind (str "password")
      then unsupported (str "the resource-owner password grant is not enabled")
      else malformed_credential (str "unsupported " ++ grant_type_header ++ str ": " ++ kind)

  after_refusal :
      (kind : Text) (scope : Option Text) (id secret : Text) (w : W)
      → kind ≢ str "client_credentials"
      → (kind ≡ str "password" → a.allow_password_grant ≡ false)
      → (do
        user ← grant library endpoint hash clock try_from a (some kind) scope id secret
        pure (Verdict.authenticated user))
          w
        ≡ (err (refusal kind), w)
  unfolding grant
  after_refusal kind scope id secret w m q =
      ground (
        arith,
        m,
        q,
        text_eq_iff kind (str "client_credentials"),
        text_eq_iff kind (str "password"),
      )

  module _ {S : Type 0} ⦃s : AuthScope S⦄ (ctx : AuthContext S) where
    unpresented :
        (w : W)
        → pair_of ctx.credential ≡ none
        → authenticate library endpoint hash clock try_from a ctx w ≡ (ok Verdict.not_applicable, w)
    unfolding authenticate
    unpresented w h = ground (arith, h)

    -- what the match on the header decides for a presented pair
    abbrev granted : Text → Text → M W U
    granted =
        grant library endpoint hash clock try_from a (header ctx.request grant_type_header)
          (s.cache_discriminator ctx.scope)

    presented :
        (id secret : Text) (w : W)
        → pair_of ctx.credential ≡ some (id, secret)
        → authenticate library endpoint hash clock try_from a ctx w
          ≡ (do user ← granted id secret; pure (Verdict.authenticated user)) w
    unfolding authenticate
    presented id secret w h = ground (arith, h)

    after_grant :
        (id secret : Text) (w : W) (u : U)
        → ((do user ← granted id secret; pure (Verdict.authenticated user)) w).0
          ≡ ok (Verdict.authenticated u)
        → Granted
            (header ctx.request grant_type_header)
            (s.cache_discriminator ctx.scope)
            id
            secret
            w
            u
    after_grant id secret w u h =
        let (user, given, done) = bind-ok (granted id secret) _ w _ h in
        let same : user ≡ u = cc (ok_inj done) in grant-ok _ _ id secret w u (given ∙ ap ok same)

    -- A user is authenticated only for a `Basic` pair: by the machine grant, if the request names that
    -- grant or none, or by the password grant, if the request names it and it is enabled. Behind it
    -- stands an entry of the cache under the key of this scope, grant and pair that has not expired,
    -- or the answer of the token endpoint, whose ID token is verified for a password.
    pub authenticate-Granted :
        (w : W) (u : U)
        → (authenticate library endpoint hash clock try_from a ctx w).0
          ≡ ok (Verdict.authenticated u)
        → (id : Text) × (secret : Text) × (pair_of ctx.credential ≡ some (id, secret))
          × Granted
              (header ctx.request grant_type_header)
              (s.cache_discriminator ctx.scope)
              id
              secret
              w
              u
    authenticate-Granted w u h = elim (Option-cases (pair_of ctx.credential)) [
      | inr ((id, secret), c) ↦ (
        id,
        secret,
        c,
        after_grant id secret w u (ap (λ r. r.0) (sym (presented id secret w c)) ∙ h),
      )
      | inl n ↦ absurd (cc (ap (λ r. r.0) (sym (unpresented w n)) ∙ h))
    ]

    -- The authenticator declines exactly the requests that present no pair, and then it changes
    -- nothing.
    pub authenticate-declines_pair_iff :
        (w : W)
        → (((authenticate library endpoint hash clock try_from a ctx w).0
              ≡ ok Verdict.not_applicable)
            ↔ (pair_of ctx.credential ≡ none))
          × ((pair_of ctx.credential ≡ none)
              → (authenticate library endpoint hash clock try_from a ctx w).1 ≡ w)
    authenticate-declines_pair_iff w =
        let declined = unpresented w in
        (
          (
            λ h. elim (Option-cases (pair_of ctx.credential)) [
              | inl n ↦ n
              | inr ((id, secret), q) ↦ absurd (
                  bind-NeverDeclines (granted id secret) _ (λ user. pure-NeverDeclines user) w
                    (ap (λ r. r.0) (sym (presented id secret w q)) ∙ h))
            ],
            λ n. ap (λ r. r.0) (declined n),
          ),
          λ n. ap (λ r. r.1) (declined n),
        )

    -- A pair whose request names another grant than the machine grant, or the password grant where
    -- that is not enabled, is refused in every world and without changing it, so no provider is
    -- asked: with 501 for the password grant, and with 400 for any other.
    pub authenticate-refused :
        (kind id secret : Text) (w : W)
        → pair_of ctx.credential ≡ some (id, secret)
        → header ctx.request grant_type_header ≡ some kind
        → kind ≢ str "client_credentials"
        → (kind ≡ str "password" → a.allow_password_grant ≡ false)
        → (e : AuthError) × (authenticate library endpoint hash clock try_from a ctx w ≡ (err e, w))
          × (kind ≡ str "password" → status e ≡ 501)
          × (kind ≢ str "password" → status e ≡ 400)
    unfolding status
    authenticate-refused kind id secret w c g m q = (
      refusal kind,
      presented id secret w c
          ∙ ap
              (λ (o : Option Text).
                (do
                  user ←
                      grant library endpoint hash clock try_from a o
                        (s.cache_discriminator ctx.scope) id secret
                  pure (Verdict.authenticated user))
                  w)
              g
          ∙ after_refusal kind _ id secret w m q,
      λ e. ground (arith, text_eq_iff kind (str "password"), e),
      λ n. ground (arith, text_eq_iff kind (str "password"), n),
    )
