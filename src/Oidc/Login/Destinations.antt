-- ===== src/Oidc/Login/Destinations.antt =====
-- src/oidc/login.rs: the destinations that a redirect policy accepts.
use authn_kit.Prelude.{
  ◌≡◌, ◌≢◌, ◌↔◌, ◌⊎◌, inl, inr, refl, Bool, true, false, ◌||◌, ◌&&◌, not, some, List, [], ◌∷◌, ◌++◌,
  arith, any, All, Option-cases, Bool-cases, sym, ap, ◌∙◌,
}
use mathlib.Core.Bool.{false≢true}
use authn_kit.Text.{Text, str, is_control, starts_with, strip_prefix, trim_end_matches}
use authn_kit.Text.Laws.{strip_prefix-append, append-strip_prefix}
use authn_kit.Effect.{ok}
use authn_kit.Oidc.Login.Redirect.{
  RedirectPolicy, relative_only, allowlist, at_boundary, is_within_origin, validate_absolute,
  validate,
}

-- The text is empty, or begins where a path, a query or a fragment does.
abbrev pub AtBoundary : Text → Type 0
AtBoundary [] = Unit
AtBoundary (c ∷ s) = (c ≡ b'/') ⊎ (c ≡ b'?') ⊎ (c ≡ b'#')

-- The URL is the origin, less the slashes at its end, up to such a boundary.
abbrev pub Within : Text → Text → Type 0
Within url origin = (rest : Text) × (url ≡ trim_end_matches b'/' origin ++ rest) × AtBoundary rest

abbrev pub WithinAny : Text → List Text → Type 0
WithinAny url [] = ⊥
WithinAny url (origin ∷ origins) = Within url origin ⊎ WithinAny url origins

-- A slash that neither a slash nor a backslash follows.
abbrev pub IsPath : Text → Type 0
IsPath [] = ⊥
IsPath (c ∷ []) = c ≡ b'/'
IsPath (c ∷ d ∷ s) = (c ≡ b'/') × (d ≢ b'/') × (d ≢ b'\\')

-- No path, but under an origin of the list.
abbrev pub IsListed : RedirectPolicy → Text → Type 0
IsListed relative_only destination = ⊥
IsListed (allowlist origins) destination =
    (starts_with destination (str "/") ≡ false) × WithinAny destination origins

at_boundary_iff : (rest : Text) → (at_boundary (some rest) ≡ true) ↔ AtBoundary rest
unfolding str starts_with
at_boundary_iff [] = (λ _. tt, λ _. refl)
at_boundary_iff (c ∷ s) = ground arith

is_within_origin_iff :
    (url origin : Text) → (is_within_origin url origin ≡ true) ↔ Within url origin
unfolding is_within_origin
is_within_origin_iff url origin =
    let base = trim_end_matches b'/' origin in
    (
      λ h. elim (Option-cases (strip_prefix url base)) [
        | inl n ↦ absurd (false≢true (ap at_boundary (sym n) ∙ h))
        | inr (rest, e) ↦ (
          rest,
          append-strip_prefix url base rest e,
          (at_boundary_iff rest).0 (ap at_boundary (sym e) ∙ h),
        )
      ],
      λ (rest, e, b).
          ap at_boundary (ap (λ u. strip_prefix u base) e ∙ strip_prefix-append base rest)
          ∙ (at_boundary_iff rest).1 b,
    )

WithinAny-iff :
    (url : Text) (origins : List Text)
    → (any (λ origin. is_within_origin url origin) origins ≡ true) ↔ WithinAny url origins
WithinAny-iff url [] = (λ h. cc, λ h. elim h [ ])
WithinAny-iff url (origin ∷ origins) =
    ground (arith, is_within_origin_iff url origin, WithinAny-iff url origins)

controls_iff : (s : Text) → (any is_control s ≡ false) ↔ All (λ c. is_control c ≡ false) s
controls_iff [] = (λ _. tt, λ _. refl)
controls_iff (c ∷ s) = ground (arith, controls_iff s)

-- the tests of a destination that begins with a slash
abbrev is_path : Text → Bool
is_path destination =
    starts_with destination (str "/")
    && not (starts_with destination (str "//") || starts_with destination (str "/\\"))

is_path_iff : (s : Text) → (is_path s ≡ true) ↔ IsPath s
unfolding str starts_with
is_path_iff [] = (λ h. cc, λ h. elim h [ ])
is_path_iff (c ∷ []) = ground arith
is_path_iff (c ∷ d ∷ s) = ground arith

unlisted :
    (policy : RedirectPolicy) (destination : Text)
    → starts_with destination (str "/") ≡ true
    → ¬ IsListed policy destination
unlisted relative_only destination h e = elim e [ ]
unlisted (allowlist origins) destination h (n, _) = false≢true (sym n ∙ h)

module _ (debug : Text → Text) where
  IsListed-iff :
      (policy : RedirectPolicy) (destination : Text)
      → starts_with destination (str "/") ≡ false
      → (validate_absolute debug policy destination ≡ ok tt) ↔ IsListed policy destination
  unfolding validate_absolute
  IsListed-iff relative_only destination h = (λ e. cc, λ e. elim e [ ])
  IsListed-iff (allowlist origins) destination h =
      ground (arith, h, WithinAny-iff destination origins)

  -- A destination is accepted exactly if it has no control character and is a path that is not
  -- relative to a protocol, or no path and under an origin that the policy lists.
  pub validate_iff :
      (policy : RedirectPolicy) (destination : Text)
      → (validate debug policy destination ≡ ok tt) ↔ (
          All (λ c. is_control c ≡ false) destination
          × (IsPath destination ⊎ IsListed policy destination))
  unfolding validate
  validate_iff policy destination = elim (Bool-cases (starts_with destination (str "/"))) [
    | inl p ↦
        ground (
          arith,
          p,
          controls_iff destination,
          is_path_iff destination,
          unlisted policy destination p,
        )
    | inr n ↦ ground (
      arith,
      n,
      controls_iff destination,
      is_path_iff destination,
      IsListed-iff policy destination n,
    )
  ]
