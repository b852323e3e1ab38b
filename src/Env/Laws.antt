-- ===== src/Env/Laws.antt =====
-- src/env.rs: what the readers make of the environment.
use authn_kit.Prelude.{
  ℕ, ◌*◌, ◌<◌, ◌≡◌, ◌≢◌, ◌⊎◌, inl, inr, refl, true, false, ◌++◌, Option, none, some, get_or, List,
  [], ◌∷◌, is_empty, arith, All-append, Sum-cases, sym, ap, ◌∙◌, if◌then◌else◌,
}
use authn_kit.Text.{Text, str, trim, ends_with_char, to_decimal, is_whitespace}
use authn_kit.Text.Splitting.{IsWord, trim-word}
use authn_kit.Cookie.{second}
use authn_kit.Env.Number.{parse_u64-to_decimal, to_decimal-trim}
use authn_kit.Env.{
  EnvError, empty_prefix, Var, present, EnvConfig, with_prefix, name, get, required, require,
  parsed, parse, parse_or, duration_secs, list, ◌>>=◌, applied, optional_settings, checked,
  oidc_config,
}
use authn_kit.Oidc.Config.{
  OidcConfig, OidcConfigError, new_config, with_client_secret, with_scopes,
  with_min_refresh_interval,
}

pub bind_inr :
    {A B : Type 0} (m : EnvError ⊎ A) (f : A → EnvError ⊎ B) (b : B)
    → (m >>= f) ≡ inr b
    → (a : A) × (m ≡ inr a) × (f a ≡ inr b)
bind_inr (inl e) f b h = cc
bind_inr (inr a) f b h = (a, refl, h)

module _ (var : Text → Var) (c : EnvConfig) where
  get-present :
      (suffix raw : Text)
      → var (name c suffix) ≡ present raw
      → is_empty (trim raw) ≡ false
      → get var c suffix ≡ inr (some raw)
  unfolding get
  get-present suffix raw h n = ground (arith, h, n)

  -- A duration is read back from the decimal digits of its seconds, if these are a `u64`.
  pub duration_secs-to_decimal :
      (suffix : Text) (n : ℕ)
      → n < 18446744073709551616
      → var (name c suffix) ≡ present (to_decimal n)
      → duration_secs var c suffix ≡ inr (some (n * second))
  unfolding duration_secs parse
  duration_secs-to_decimal suffix n k h =
      let (trims, filled) = to_decimal-trim n in
      let found = get-present suffix (to_decimal n) h (rw trims filled) in
      rw found (rw (trims, parsed) (rw (parse_u64-to_decimal n k, parsed)))

  pub parsed-inr :
      {T : Type 0} (from_str : Text → Text ⊎ T) (full : Text) (o : Option Text) (v : Option T)
      → parsed var c from_str full o ≡ inr v
      → ((o ≡ none) × (v ≡ none))
        ⊎ ((raw : Text) × (value : T) × (o ≡ some raw)
            × (from_str (trim raw) ≡ inr value)
            × (v ≡ some value))
  parsed-inr from_str full none v h = inl (refl, cc h)
  parsed-inr from_str full (some raw) v h = elim (Sum-cases (from_str (trim raw))) [
    | inl (detail, f) ↦ absurd (ground (arith, f, h))
    | inr (value, f) ↦ inr (raw, value, refl, f, ground (arith, f, h))
  ]

  -- The default is used only if the variable is not set, or blank: a value that cannot be parsed is an
  -- error.
  pub parse_or-inr :
      {T : Type 0} (from_str : Text → Text ⊎ T) (suffix : Text) (default value : T)
      → parse_or var c from_str suffix default ≡ inr value
      → ((get var c suffix ≡ inr none) × (value ≡ default))
        ⊎ ((raw : Text) × (get var c suffix ≡ inr (some raw)) × (from_str (trim raw) ≡ inr value))
  unfolding parse_or
  parse_or-inr from_str suffix default value h =
      let (v, reads, rest) = bind_inr (parse var c from_str suffix) _ value h in
      let (o, found, parses) = bind_inr (get var c suffix) _ v reads in
      let same : get_or v default ≡ value = cc rest in
      elim (parsed-inr from_str (name c suffix) o v parses) [
        | inl (n, m) ↦ inl (rw n at found, sym same ∙ ap (λ r. get_or r default) m)
        | inr (raw, x, n, f, m) ↦
            inr (raw, rw n at found, f ∙ ap inr (sym (ap (λ r. get_or r default) m) ∙ same))
      ]

  -- What the optional settings make of the configuration.
  pub optional_settings-inr :
      (start config : OidcConfig)
      → optional_settings var c start ≡ inr config
      → (secret : Option Text) × (scopes : Option (List Text)) × (interval : Option ℕ) × (get var c
            (str "OIDC_CLIENT_SECRET")
          ≡ inr secret)
        × (list var c (str "OIDC_SCOPES") ≡ inr scopes)
        × (duration_secs var c (str "OIDC_MIN_REFRESH_SECS") ≡ inr interval)
        × (applied var c interval with_min_refresh_interval
              (applied var c scopes with_scopes (applied var c secret with_client_secret start))
            ≡ config)
  unfolding optional_settings
  optional_settings-inr start config h =
      let (secret, found, h₁) = bind_inr (get var c (str "OIDC_CLIENT_SECRET")) _ config h in
      let (scopes, listed, h₂) = bind_inr (list var c (str "OIDC_SCOPES")) _ config h₁ in
      let (interval, timed, h₃) =
        bind_inr (duration_secs var c (str "OIDC_MIN_REFRESH_SECS")) _ config h₂ in
      (secret, scopes, interval, found, listed, timed, cc h₃)

  required-inr :
      (full : Text) (o : Option Text) (value : Text)
      → required var c full o ≡ inr value
      → o ≡ some value
  required-inr full none value h = cc
  required-inr full (some v) value h = cc

  pub require-inr :
      (suffix value : Text) → require var c suffix ≡ inr value → get var c suffix ≡ inr (some value)
  unfolding require
  require-inr suffix value h =
      let (o, found, rest) = bind_inr (get var c suffix) _ value h in
      found ∙ ap inr (required-inr (name c suffix) o value rest)

  checked-inr :
      (r : OidcConfigError ⊎ OidcConfig) (config : OidcConfig)
      → checked var c r ≡ inr config
      → r ≡ inr config
  checked-inr (inl e) config h = cc
  checked-inr (inr x) config h = cc

  -- A configuration is read only if the issuer, the client and the redirect URL are set and not blank
  -- and both URLs are accepted; the secret, the scopes and the interval are then those that are set.
  pub oidc_config-inr :
      (parse_url : Text → Text ⊎ Text) (config : OidcConfig)
      → oidc_config var c parse_url ≡ inr config
      → (issuer client_id redirect : Text) × (start : OidcConfig) × (get var c
            (str "OIDC_ISSUER_URL")
          ≡ inr (some issuer))
        × (get var c (str "OIDC_CLIENT_ID") ≡ inr (some client_id))
        × (get var c (str "OIDC_REDIRECT_URL") ≡ inr (some redirect))
        × (new_config parse_url issuer client_id redirect ≡ inr start)
        × (optional_settings var c start ≡ inr config)
  unfolding oidc_config
  oidc_config-inr parse_url config h =
      let (issuer, i, h₁) = bind_inr (require var c (str "OIDC_ISSUER_URL")) _ config h in
      let (client_id, k, h₂) = bind_inr (require var c (str "OIDC_CLIENT_ID")) _ config h₁ in
      let (redirect, r, h₃) = bind_inr (require var c (str "OIDC_REDIRECT_URL")) _ config h₂ in
      let (start, made, rest) =
        bind_inr (checked var c (new_config parse_url issuer client_id redirect)) _ config h₃ in
      (
        issuer,
        client_id,
        redirect,
        start,
        require-inr (str "OIDC_ISSUER_URL") issuer i,
        require-inr (str "OIDC_CLIENT_ID") client_id k,
        require-inr (str "OIDC_REDIRECT_URL") redirect r,
        checked-inr (new_config parse_url issuer client_id redirect) start made,
        rest,
      )

ends-append : (d : ℕ) (p : Text) → ends_with_char d (p ++ d ∷ []) ≡ true
unfolding ends_with_char
ends-append d [] = ground arith
ends-append d (c ∷ []) = ends-append d []
ends-append d (c ∷ e ∷ p) = ends-append d (e ∷ p)

ends-underscore : (p : Text) → ends_with_char b'_' (p ++ str "_") ≡ true
unfolding str
ends-underscore p = ends-append b'_' p

filled_append : (p s : Text) → p ≢ [] → (is_empty p ≡ false) × (is_empty (p ++ s) ≡ false)
filled_append [] s h = absurd (h refl)
filled_append (c ∷ p) s h = (refl, refl)

underscore-IsWord : (p : Text) → IsWord p → IsWord (p ++ str "_")
unfolding is_whitespace str
underscore-IsWord p h = All-append (λ c. is_whitespace c ≡ false) p (str "_") h (refl, tt)

of_trimmed :
    (p t : Text)
    → trim p ≡ t
    → with_prefix p ≡ (
        if is_empty t
        then inl empty_prefix
        else if ends_with_char b'_' t
        then inr (record { prefix = t })
        else inr (record { prefix = t ++ str "_" }))
unfolding with_prefix
of_trimmed p t h = rw (← h)

-- A prefix with and without its underscore reads the same variables.
pub with_prefix-underscore :
    (p : Text)
    → IsWord p
    → p ≢ []
    → ends_with_char b'_' p ≡ false
    → (with_prefix p ≡ inr (record { prefix = p ++ str "_" }))
      × (with_prefix (p ++ str "_") ≡ inr (record { prefix = p ++ str "_" }))
with_prefix-underscore p word filled plain =
    let (full, longer) = filled_append p (str "_") filled in
    (
      of_trimmed p p (trim-word p word) ∙ rw (full, plain),
      of_trimmed (p ++ str "_") (p ++ str "_") (trim-word (p ++ str "_") (underscore-IsWord p word))
          ∙ rw longer (rw (ends-underscore p)),
    )
