-- ===== src/Env/Settings.antt =====
-- src/env.rs, `oidc_config`: what the variables say of a configuration, and the readers of them.
use authn_kit.Prelude.{
  ℕ, ◌*◌, ◌≡◌, ◌⊎◌, inl, inr, refl, true, false, Option, none, some, get_or, List, [], ◌∷◌,
  is_empty, arith, Bool-cases, sym, ap, subst, ◌∙◌,
}
use mathlib.Core.Option
use authn_kit.Text.{Text, str, trim}
use authn_kit.Cookie.{second}
use authn_kit.Env.Number.{parse_u64}
use authn_kit.Env.{
  EnvError, Var, present, not_present, EnvConfig, name, set_value, get, require, parsed, parse,
  duration_secs, items, list,
}
use authn_kit.Env.Laws.{bind_inr, parsed-inr}
use authn_kit.Oidc.Config.{OidcConfig}

abbrev pub default_scopes : List Text
default_scopes = str "openid" ∷ str "email" ∷ str "profile" ∷ []

module _ (var : Text → Var) (c : EnvConfig) where
  -- The variable has this value, which is not blank.
  abbrev pub HasValue : Text → Text → Type 0
  HasValue suffix value = (var (name c suffix) ≡ present value) × (is_empty (trim value) ≡ false)

  -- The variable has no value, or a blank one.
  abbrev pub IsMissing : Text → Type 0
  IsMissing suffix =
      (var (name c suffix) ≡ not_present)
      ⊎ ((value : Text) × (var (name c suffix) ≡ present value) × (is_empty (trim value) ≡ true))

  abbrev pub Holds : Text → Option Text → Type 0
  Holds suffix none = IsMissing suffix
  Holds suffix (some value) = HasValue suffix value

  -- The scopes are the items of the variable, or without it the default ones.
  abbrev pub IsScoped : List Text → Type 0
  IsScoped scopes =
      (IsMissing (str "OIDC_SCOPES") × (scopes ≡ str "openid" ∷ str "email" ∷ str "profile" ∷ []))
      ⊎ ((raw : Text) × HasValue (str "OIDC_SCOPES") raw × (scopes ≡ items raw))

  -- The interval is the number of seconds that the variable says, or without it half a minute.
  abbrev pub IsSpaced : ℕ → Type 0
  IsSpaced interval =
      (IsMissing (str "OIDC_MIN_REFRESH_SECS") × (interval ≡ 30 * second))
      ⊎ ((raw : Text) × (n : ℕ) × HasValue (str "OIDC_MIN_REFRESH_SECS") raw
          × (parse_u64 (trim raw) ≡ inr n)
          × (interval ≡ n * second))

  -- What the environment says of a configuration, field by field.
  pub record IsConfigured (parse_url : Text → Text ⊎ Text) (config : OidcConfig) : Type 0 where
    pub issuer : Text
    pub redirect : Text
    pub issuer_set : HasValue (str "OIDC_ISSUER_URL") issuer
    pub issuer_parses : parse_url issuer ≡ inr config.issuer_url
    pub client : HasValue (str "OIDC_CLIENT_ID") config.client_id
    pub redirect_set : HasValue (str "OIDC_REDIRECT_URL") redirect
    pub redirect_parses : parse_url redirect ≡ inr config.redirect_url
    pub secret : Holds (str "OIDC_CLIENT_SECRET") config.client_secret
    pub scoped : IsScoped config.scopes
    pub spaced : IsSpaced config.min_refresh_interval
    pub pkce : config.use_pkce ≡ true

  set_value-Holds :
      (suffix : Text) (v : Var) (o : Option Text)
      → var (name c suffix) ≡ v
      → set_value var c (name c suffix) v ≡ inr o
      → Holds suffix o
  set_value-Holds suffix (present value) o e h = elim (Bool-cases (is_empty (trim value))) [
    | inl b ↦
        let blank : none ≡ o = ground (arith, b, h) in
        subst (Holds suffix) blank (inr (value, e, b))
    | inr b ↦ let held : some value ≡ o = ground (arith, b, h) in subst (Holds suffix) held (e, b)
  ]
  set_value-Holds suffix not_present o e h =
      let absent : none ≡ o = cc h in subst (Holds suffix) absent (inl e)
  set_value-Holds suffix Var.not_unicode o e h = cc

  pub get-Holds : (suffix : Text) (o : Option Text) → get var c suffix ≡ inr o → Holds suffix o
  unfolding get
  get-Holds suffix o h = set_value-Holds suffix (var (name c suffix)) o refl h

  pub Holds-get : (suffix : Text) (o : Option Text) → Holds suffix o → get var c suffix ≡ inr o
  unfolding get
  Holds-get suffix none (inl e) = rw e
  Holds-get suffix none (inr (value, e, b)) = rw e (rw b)
  Holds-get suffix (some value) (e, b) = rw e (rw b)

  read_scopes :
      (raw : Option Text) (o : Option (List Text))
      → Holds (str "OIDC_SCOPES") raw
      → ◌≡◌ {A = EnvError ⊎ Option (List Text)} (inr (Option.map items raw)) (inr o)
      → IsScoped (get_or o default_scopes)
  read_scopes none o k e =
      let absent : none ≡ o = cc e in
      subst (λ x. IsScoped (get_or x default_scopes)) absent (inl (k, refl))
  read_scopes (some raw) o k e =
      let held : some (items raw) ≡ o = cc e in
      subst (λ x. IsScoped (get_or x default_scopes)) held (inr (raw, k, refl))

  pub list-IsScoped :
      (o : Option (List Text))
      → list var c (str "OIDC_SCOPES") ≡ inr o
      → IsScoped (get_or o default_scopes)
  unfolding list
  list-IsScoped o h =
      let (raw, found, rest) = bind_inr (get var c (str "OIDC_SCOPES")) _ o h in
      read_scopes raw o (get-Holds (str "OIDC_SCOPES") raw found) rest

  read_interval :
      (raw : Option Text) (secs o : Option ℕ)
      → Holds (str "OIDC_MIN_REFRESH_SECS") raw
      → ((raw ≡ none) × (secs ≡ none))
        ⊎ ((r : Text) × (n : ℕ) × (raw ≡ some r) × (parse_u64 (trim r) ≡ inr n) × (secs ≡ some n))
      → Option.map (λ n. n * second) secs ≡ o
      → IsSpaced (get_or o (30 * second))
  read_interval raw secs o k (inl (a, b)) e =
      subst (λ x. IsSpaced (get_or x (30 * second))) (ap (Option.map (λ n. n * second)) (sym b) ∙ e)
        (inl (subst (Holds (str "OIDC_MIN_REFRESH_SECS")) a k, refl))
  read_interval raw secs o k (inr (r, n, a, p, b)) e =
      subst (λ x. IsSpaced (get_or x (30 * second))) (ap (Option.map (λ n. n * second)) (sym b) ∙ e)
        (inr (r, n, subst (Holds (str "OIDC_MIN_REFRESH_SECS")) a k, p, refl))

  pub duration_secs-IsSpaced :
      (o : Option ℕ)
      → duration_secs var c (str "OIDC_MIN_REFRESH_SECS") ≡ inr o
      → IsSpaced (get_or o (30 * second))
  unfolding duration_secs parse
  duration_secs-IsSpaced o h =
      let suffix = str "OIDC_MIN_REFRESH_SECS" in
      let (secs, reads, rest) = bind_inr (parse var c parse_u64 suffix) _ o h in
      let (raw, found, parses) = bind_inr (get var c suffix) _ secs reads in
      read_interval raw secs o (get-Holds suffix raw found)
        (parsed-inr var c parse_u64 (name c suffix) raw secs parses) (cc rest)

  pub IsScoped-list :
      (s : List Text)
      → IsScoped s
      → (o : Option (List Text)) × (list var c (str "OIDC_SCOPES") ≡ inr o)
        × (get_or o default_scopes ≡ s)
  unfolding list
  IsScoped-list s (inl (k, e)) = (none, rw (Holds-get (str "OIDC_SCOPES") none k), sym e)
  IsScoped-list s (inr (raw, k, e)) =
      (some (items raw), rw (Holds-get (str "OIDC_SCOPES") (some raw) k), sym e)

  pub IsSpaced-duration_secs :
      (n : ℕ)
      → IsSpaced n
      → (o : Option ℕ) × (duration_secs var c (str "OIDC_MIN_REFRESH_SECS") ≡ inr o)
        × (get_or o (30 * second) ≡ n)
  unfolding duration_secs parse
  IsSpaced-duration_secs n (inl (k, e)) =
      (none, rw (Holds-get (str "OIDC_MIN_REFRESH_SECS") none k), sym e)
  IsSpaced-duration_secs n (inr (raw, m, k, p, e)) = (
    some (m * second),
    rw (Holds-get (str "OIDC_MIN_REFRESH_SECS") (some raw) k) (rw (p, parsed)),
    sym e,
  )

  pub HasValue-require :
      (suffix value : Text) → HasValue suffix value → require var c suffix ≡ inr value
  unfolding require
  HasValue-require suffix value k = rw (Holds-get suffix (some value) k)
