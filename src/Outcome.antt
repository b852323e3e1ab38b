-- ===== src/Outcome.antt =====
-- src/outcome.rs: what one authenticator concluded, and what the chain concluded.
use authn_kit.Prelude.{Bool, true, false, Option, none, some, ◌≡◌, refl}

pub data Verdict (U : Type 0) : Type 0 where
  authenticated : U → Verdict U
  not_applicable : Verdict U

pub data Outcome (U : Type 0) : Type 0 where
  authenticated : U → Outcome U
  anonymous : Outcome U
  not_applicable : Outcome U

module _ {U : Type 0} where
  unfoldable pub verdict_is_applicable : Verdict U → Bool
  verdict_is_applicable (Verdict.authenticated _) = true
  verdict_is_applicable Verdict.not_applicable = false

  unfoldable pub verdict_principal : Verdict U → Option U
  verdict_principal (Verdict.authenticated user) = some user
  verdict_principal Verdict.not_applicable = none

  unfoldable pub is_applicable : Outcome U → Bool
  is_applicable (Outcome.authenticated _) = true
  is_applicable anonymous = true
  is_applicable Outcome.not_applicable = false

  unfoldable pub principal : Outcome U → Option U
  principal (Outcome.authenticated user) = some user
  principal anonymous = none
  principal Outcome.not_applicable = none

  -- `From<Verdict<U>> for Outcome<U>`
  unfoldable pub from_verdict : Verdict U → Outcome U
  from_verdict (Verdict.authenticated user) = Outcome.authenticated user
  from_verdict Verdict.not_applicable = Outcome.not_applicable

module _ {U V : Type 0} where
  unfoldable pub verdict_map : (U → V) → Verdict U → Verdict V
  verdict_map f (Verdict.authenticated user) = Verdict.authenticated (f user)
  verdict_map f Verdict.not_applicable = Verdict.not_applicable

  unfoldable pub map : (U → V) → Outcome U → Outcome V
  map f (Outcome.authenticated user) = Outcome.authenticated (f user)
  map f anonymous = anonymous
  map f Outcome.not_applicable = Outcome.not_applicable

  -- Mapping the user commutes with the embedding of verdicts.
  pub map-from_verdict :
      (f : U → V) (v : Verdict U) → map f (from_verdict v) ≡ from_verdict (verdict_map f v)
  unfolding map from_verdict verdict_map
  map-from_verdict f (Verdict.authenticated user) = refl
  map-from_verdict f Verdict.not_applicable = refl
