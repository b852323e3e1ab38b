-- ===== src/Mechanisms/ApiToken/Static.antt =====
-- src/mechanisms/api_token.rs: what the authenticator claims, and what its static tokens decide.
use authn_kit.Prelude.{
  ℕ, ◌≡◌, ◌↔◌, ◌⊎◌, refl, Bool, true, false, ◌&&◌, Option, none, some, List, [], ◌∷◌, ◌++◌, arith,
  length, find-some, find_none_iff, All, ==_iff, any, sym, ◌∙◌,
}
use mathlib.Core.Bool.{false≢true}
use authn_kit.Text.{Text, text_eq, strip_prefix}
use authn_kit.Text.Utf8.{as_bytes, as_bytes_inj}
use authn_kit.Text.Laws.{text_eq_iff}
use authn_kit.Credential.{Credential, bearer}
use authn_kit.Mechanisms.ApiToken.{permitted, StaticToken, permits, matches, matched}

-- What the source relies on of `subtle`: on slices of one length, the comparison decides equality.
pub record IsConstantTimeEq (ct_eq : List ℕ → List ℕ → Bool) : Type 0 where
  pub decides : (x y : List ℕ) → length x ≡ length y → (ct_eq x y ≡ true) ↔ (x ≡ y)

-- The key that a credential presents to an authenticator with this prefix, if it does.
abbrev pub presented_key : Text → Credential → Option Text
presented_key prefix (bearer token) = strip_prefix token prefix
presented_key prefix _ = none

-- The scope is one of a list.
abbrev pub Listed : Text → List Text → Type 0
Listed scope [] = ⊥
Listed scope (s ∷ rest) = (s ≡ scope) ⊎ Listed scope rest

-- Where a token may be used: everywhere if it has no list, and else for a listed scope.
abbrev pub Permitted : Option (List Text) → Option Text → Type 0
Permitted none scope = Unit
Permitted (some allowed) none = ⊥
Permitted (some allowed) (some scope) = Listed scope allowed

any_iff :
    (scope : Text) (l : List Text)
    → (any (λ listed. text_eq listed scope) l ≡ true) ↔ Listed scope l
any_iff scope [] = (λ h. cc, λ h. elim h [ ])
any_iff scope (s ∷ rest) = ground (arith, text_eq_iff s scope, any_iff scope rest)

-- The test of a token's scopes.
pub permits_iff :
    {Value : Type 0} (t : StaticToken Value) (scope : Option Text)
    → (permits t scope ≡ true) ↔ Permitted t.scopes scope
unfolding permits
permits_iff t scope = elim_scopes t.scopes scope
  where
    elim_scopes :
        (o : Option (List Text)) (scope : Option Text)
        → (permitted o scope ≡ true) ↔ Permitted o scope
    elim_scopes none scope = (λ _. tt, λ _. refl)
    elim_scopes (some allowed) none = (λ h. cc, λ h. elim h [ ])
    elim_scopes (some allowed) (some scope) = any_iff scope allowed

module _ {Value : Type 0} (ct_eq : List ℕ → List ℕ → Bool) (law : IsConstantTimeEq ct_eq) where
  -- A static token matches exactly the key whose text is its secret.
  pub matches_iff :
      (t : StaticToken Value) (presented : Text)
      → (matches ct_eq t presented ≡ true) ↔ (t.secret ≡ presented)
  unfolding matches
  matches_iff t presented =
      let x = as_bytes t.secret in
      let y = as_bytes presented in
      (
        λ h.
            let same = (==_iff (length x) (length y)).0 (ground (arith, h)) in
            as_bytes_inj t.secret presented ((law.decides x y same).0 (ground (arith, h))),
        λ e. rw e (ground (arith, (law.decides y y refl).1 refl)),
      )

  -- The token may be used for the scope, and is the presented key.
  abbrev pub Opens : Option Text → Text → StaticToken Value → Type 0
  Opens scope presented t = Permitted t.scopes scope × (t.secret ≡ presented)

  Opens-iff :
      (scope : Option Text) (presented : Text) (t : StaticToken Value)
      → ((permits t scope && matches ct_eq t presented) ≡ true) ↔ Opens scope presented t
  Opens-iff scope presented t = ground (arith, permits_iff t scope, matches_iff t presented)

  All-map :
      (P Q : StaticToken Value → Type 0)
      → ((t : StaticToken Value) → P t → Q t)
      → (l : List (StaticToken Value)) → All P l
      → All Q l
  All-map P Q f [] h = tt
  All-map P Q f (t ∷ l) (p, h) = (f t p, All-map P Q f l h)

  -- No static token is matched exactly if none that is permitted for the scope is the presented key.
  pub matched-none_iff :
      (tokens : List (StaticToken Value)) (scope : Option Text) (presented : Text)
      → (matched ct_eq tokens scope presented ≡ none) ↔ All (λ t. ¬ Opens scope presented t) tokens
  unfolding matched
  matched-none_iff tokens scope presented =
      let test : StaticToken Value → Bool = λ t. permits t scope && matches ct_eq t presented in
      let closed : (t : StaticToken Value) → test t ≡ false → ¬ Opens scope presented t =
        λ t h o. false≢true (sym h ∙ (Opens-iff scope presented t).1 o) in
      let opened : (t : StaticToken Value) → ¬ Opens scope presented t → test t ≡ false =
        λ t h. ground (arith, h, Opens-iff scope presented t) in
      (
        λ h. All-map (λ t. test t ≡ false) _ closed tokens ((find_none_iff test tokens).0 h),
        λ h. (find_none_iff test tokens).1 (All-map _ (λ t. test t ≡ false) opened tokens h),
      )

  -- A static token that is matched is the first of the list that is permitted for the scope and is
  -- the presented key.
  pub matched-some :
      (tokens : List (StaticToken Value)) (scope : Option Text) (presented : Text)
      (t : StaticToken Value)
      → matched ct_eq tokens scope presented ≡ some t
      → Opens scope presented t
        × (before : List (StaticToken Value)) × (after : List (StaticToken Value)) × (tokens
            ≡ before ++ t ∷ after)
        × All (λ other. ¬ Opens scope presented other) before
  unfolding matched
  matched-some tokens scope presented t h =
      let test : StaticToken Value → Bool = λ t. permits t scope && matches ct_eq t presented in
      let (found, before, after, listed, missed) = find-some test tokens t h in
      let closed : (t : StaticToken Value) → test t ≡ false → ¬ Opens scope presented t =
        λ t h o. false≢true (sym h ∙ (Opens-iff scope presented t).1 o) in
      (
        (Opens-iff scope presented t).0 found,
        before,
        after,
        listed,
        All-map (λ t. test t ≡ false) _ closed before missed,
      )

  -- The first token of a list that opens is the one that is matched.
  pub matched_first :
      (before after : List (StaticToken Value)) (scope : Option Text) (presented : Text)
      (t : StaticToken Value)
      → All (λ other. ¬ Opens scope presented other) before
      → Opens scope presented t
      → matched ct_eq (before ++ t ∷ after) scope presented ≡ some t
  unfolding matched
  matched_first [] after scope presented t others o = rw ((Opens-iff scope presented t).1 o)
  matched_first (b ∷ before) after scope presented t (closed, others) o = ground (
    arith,
    closed,
    Opens-iff scope presented b,
    matched_first before after scope presented t others o,
  )
