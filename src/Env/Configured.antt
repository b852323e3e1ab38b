-- ===== src/Env/Configured.antt =====
-- src/env.rs, `oidc_config`: which environments give which configuration of the provider.
use authn_kit.Prelude.{
  ℕ, ◌*◌, ◌≡◌, ◌↔◌, ◌⊎◌, inl, inr, refl, true, Option, none, some, get_or, List, Sum-cases, sym, ap,
  subst, ◌∙◌,
}
use authn_kit.Text.{Text, str}
use authn_kit.Cookie.{second}
use authn_kit.Env.{
  Var, EnvConfig, get, duration_secs, list, applied, optional_settings, oidc_config,
}
use authn_kit.Env.Laws.{optional_settings-inr, oidc_config-inr}
use authn_kit.Oidc.Config.{
  OidcConfig, new_config, with_client_secret, with_scopes, with_min_refresh_interval,
}
use authn_kit.Env.Settings.{
  HasValue, IsConfigured, get-Holds, Holds-get, default_scopes, list-IsScoped,
  duration_secs-IsSpaced, IsScoped-list, IsSpaced-duration_secs, HasValue-require,
}

module _ (var : Text → Var) (c : EnvConfig) where
  -- the configuration of these readings
  abbrev settled : Text → Text → Text → Option Text → Option (List Text) → Option ℕ → OidcConfig
  settled issuer client redirect secret scopes interval = record {
    issuer_url = issuer;
    client_id = client;
    client_secret = secret;
    redirect_url = redirect;
    scopes = get_or scopes default_scopes;
    min_refresh_interval = get_or interval (30 * second);
    use_pkce = true;
  }

  applied-settled :
      (issuer client redirect : Text) (secret : Option Text) (scopes : Option (List Text))
      (interval : Option ℕ)
      → applied var c interval with_min_refresh_interval (
          applied var c scopes with_scopes (
            applied var c secret with_client_secret
              (settled issuer client redirect none none none)))
        ≡ settled issuer client redirect secret scopes interval
  unfolding with_min_refresh_interval with_scopes with_client_secret
  applied-settled i k r none none none = refl
  applied-settled i k r none none (some n) = refl
  applied-settled i k r none (some s) none = refl
  applied-settled i k r none (some s) (some n) = refl
  applied-settled i k r (some x) none none = refl
  applied-settled i k r (some x) none (some n) = refl
  applied-settled i k r (some x) (some s) none = refl
  applied-settled i k r (some x) (some s) (some n) = refl

  new_config-settled :
      (parse_url : Text → Text ⊎ Text) (issuer client redirect : Text) (start : OidcConfig)
      → new_config parse_url issuer client redirect ≡ inr start
      → (i : Text) × (r : Text) × (parse_url issuer ≡ inr i)
        × (parse_url redirect ≡ inr r)
        × (settled i client r none none none ≡ start)
  unfolding new_config
  new_config-settled parse_url issuer client redirect start h =
      elim (Sum-cases (parse_url issuer)) [
        | inl (e, p) ↦ absurd (cc (rw (p, new_config) at h))
        | inr (i, p) ↦ elim (Sum-cases (parse_url redirect)) [
          | inl (e, q) ↦ absurd (cc (rw (p, q, new_config) at h))
          | inr (r, q) ↦ (i, r, p, q, cc (rw (p, q, new_config) at h))
        ]
      ]

  settled-new_config :
      (parse_url : Text → Text ⊎ Text) (issuer client redirect i r : Text)
      → parse_url issuer ≡ inr i
      → parse_url redirect ≡ inr r
      → new_config parse_url issuer client redirect ≡ inr (settled i client r none none none)
  unfolding new_config
  settled-new_config parse_url issuer client redirect i r p q = rw (p, q, new_config)

  settled-IsConfigured :
      (parse_url : Text → Text ⊎ Text) (config : OidcConfig)
      → oidc_config var c parse_url ≡ inr config
      → IsConfigured var c parse_url config
  settled-IsConfigured parse_url config h =
      let (issuer, client, redirect, start, f, g, k, made, rest) =
        oidc_config-inr var c parse_url config h in
      let (secret, scopes, interval, a, b, d, done) =
        optional_settings-inr var c start config rest in
      let (i, r, p, q, same) = new_config-settled parse_url issuer client redirect start made in
      let whole : settled i client r secret scopes interval ≡ config =
        sym (applied-settled i client r secret scopes interval)
        ∙ ap
            (λ x.
              applied var c interval with_min_refresh_interval
                (applied var c scopes with_scopes (applied var c secret with_client_secret x)))
            same
        ∙ done in
      subst (IsConfigured var c parse_url) whole (record {
        issuer = issuer;
        redirect = redirect;
        issuer_set = get-Holds var c (str "OIDC_ISSUER_URL") (some issuer) f;
        issuer_parses = p;
        client = get-Holds var c (str "OIDC_CLIENT_ID") (some client) g;
        redirect_set = get-Holds var c (str "OIDC_REDIRECT_URL") (some redirect) k;
        redirect_parses = q;
        secret = get-Holds var c (str "OIDC_CLIENT_SECRET") secret a;
        scoped = list-IsScoped var c scopes b;
        spaced = duration_secs-IsSpaced var c interval d;
        pkce = refl;
      })

  settled-optional_settings :
      (start config : OidcConfig) (secret : Option Text) (scopes : Option (List Text))
      (interval : Option ℕ)
      → get var c (str "OIDC_CLIENT_SECRET") ≡ inr secret
      → list var c (str "OIDC_SCOPES") ≡ inr scopes
      → duration_secs var c (str "OIDC_MIN_REFRESH_SECS") ≡ inr interval
      → applied var c interval with_min_refresh_interval
          (applied var c scopes with_scopes (applied var c secret with_client_secret start))
        ≡ config
      → optional_settings var c start ≡ inr config
  unfolding optional_settings
  settled-optional_settings start config secret scopes interval a b d e =
      rw a (rw b (rw d (ap inr e)))

  settled-oidc_config :
      (parse_url : Text → Text ⊎ Text) (issuer client redirect : Text) (start config : OidcConfig)
      → HasValue var c (str "OIDC_ISSUER_URL") issuer
      → HasValue var c (str "OIDC_CLIENT_ID") client
      → HasValue var c (str "OIDC_REDIRECT_URL") redirect
      → new_config parse_url issuer client redirect ≡ inr start
      → optional_settings var c start ≡ inr config
      → oidc_config var c parse_url ≡ inr config
  unfolding oidc_config
  settled-oidc_config parse_url issuer client redirect start config f g k made rest =
      rw (HasValue-require var c (str "OIDC_ISSUER_URL") issuer f) (
        rw (HasValue-require var c (str "OIDC_CLIENT_ID") client g)
          (rw (HasValue-require var c (str "OIDC_REDIRECT_URL") redirect k) (rw made rest)))

  IsConfigured-oidc_config :
      (parse_url : Text → Text ⊎ Text) (config : OidcConfig)
      → IsConfigured var c parse_url config
      → oidc_config var c parse_url ≡ inr config
  IsConfigured-oidc_config parse_url config x =
      let (scopes, b, s) = IsScoped-list var c config.scopes x.scoped in
      let (interval, d, n) = IsSpaced-duration_secs var c config.min_refresh_interval x.spaced in
      let start = settled config.issuer_url config.client_id config.redirect_url none none none in
      let same : settled config.issuer_url config.client_id config.redirect_url config.client_secret
            scopes interval
          ≡ config =
        λ i. record config { scopes = s i; min_refresh_interval = n i; use_pkce = sym x.pkce i } in
      settled-oidc_config parse_url x.issuer config.client_id x.redirect start config x.issuer_set
        x.client x.redirect_set
        (settled-new_config parse_url x.issuer config.client_id x.redirect config.issuer_url
          config.redirect_url x.issuer_parses x.redirect_parses)
        (settled-optional_settings start config config.client_secret scopes interval
          (Holds-get var c (str "OIDC_CLIENT_SECRET") config.client_secret x.secret) b d
          (applied-settled config.issuer_url config.client_id config.redirect_url
              config.client_secret scopes interval
            ∙ same))

  -- A configuration is read exactly if the issuer, the client and the redirect URL are set and not
  -- blank, both URLs are accepted, and its fields are these: the client secret is that of its
  -- variable, or none; the scopes are the items of theirs, or the three default ones; the interval
  -- is the number of seconds that its variable parses to, or thirty seconds; and PKCE is on.
  pub oidc_config_iff :
      (parse_url : Text → Text ⊎ Text) (config : OidcConfig)
      → (oidc_config var c parse_url ≡ inr config) ↔ IsConfigured var c parse_url config
  oidc_config_iff parse_url config =
      (settled-IsConfigured parse_url config, IsConfigured-oidc_config parse_url config)
