-- ===== src/Authenticator/Decides.antt =====
-- src/authenticator.rs, the resolution order: the first authenticator that does not decline decides,
-- in the world that the declining ones before it leave.
use authn_kit.Prelude.{
  ◌≡◌, ◌⊎◌, inl, inr, refl, Bool, Option, none, some, List, [], ◌∷◌, ◌++◌, arith, fun_ext, ap, ◌∙◌,
  sym, append_assoc,
}
use authn_kit.Effect.{Result, ok, err, panic, M, pure, ◌>>=◌}
use authn_kit.Outcome.{Verdict, Outcome}
use authn_kit.Authenticator.{AuthContext, Authenticator, unclaimed, consult}

module _ {U S W : Type 0} (ctx : AuthContext S) where
  -- Every authenticator of the list declines, each in the world that the one before it leaves.
  abbrev pub Declines : List (Authenticator U S W) → W → W → Type 0
  Declines [] w w' = w ≡ w'
  Declines (a ∷ rest) w w' =
      (v : W) × (a.authenticate ctx w ≡ (ok Verdict.not_applicable, v)) × Declines rest v w'

  -- The authenticator answers alike in every world, declines, and leaves the world alone.
  abbrev pub AlwaysDeclines : Authenticator U S W → Type 0
  AlwaysDeclines a = (w : W) → a.authenticate ctx w ≡ (ok Verdict.not_applicable, w)

-- What an authenticator's answer decides for the chain; nothing if it declines.
abbrev pub decision : {U : Type 0} → Result (Verdict U) → Option (Result (Outcome U))
decision (ok (Verdict.authenticated user)) = some (ok (Outcome.authenticated user))
decision (ok Verdict.not_applicable) = none
decision (err e) = some (err e)
decision (panic t) = some (panic t)

-- One authenticator of the list decides, and all before it decline.
pub record Deciding {U S W : Type 0} (ctx : AuthContext S) (l : List (Authenticator U S W)) (w : W)
    (r : Result (Outcome U)) (w' : W) : Type 0 where
  pub before : List (Authenticator U S W)
  pub decider : Authenticator U S W
  pub after : List (Authenticator U S W)
  pub listed : l ≡ before ++ decider ∷ after
  pub reached : W
  pub declined : Declines ctx before w reached
  pub left : (decider.authenticate ctx reached).1 ≡ w'
  pub decided : decision (decider.authenticate ctx reached).0 ≡ some r

module _ {U S W : Type 0} (p : Bool) (ctx : AuthContext S) where
  pub consult_skip :
      (a : Authenticator U S W) (rest : List (Authenticator U S W)) (w v : W)
      → a.authenticate ctx w ≡ (ok Verdict.not_applicable, v)
      → consult p ctx (a ∷ rest) w ≡ consult p ctx rest v
  unfolding consult
  consult_skip a rest w v e = rw e

  pub consult_of_Declines :
      (l : List (Authenticator U S W)) (w w' : W)
      → Declines ctx l w w'
      → consult p ctx l w ≡ (ok (unclaimed p), w')
  unfolding consult
  consult_of_Declines [] w w' h = rw h
  consult_of_Declines (a ∷ rest) w w' (v, e, h) =
      consult_skip a rest w v e ∙ consult_of_Declines rest v w' h

  consult_head :
      (a : Authenticator U S W) (rest : List (Authenticator U S W)) (w : W) (r : Result (Outcome U))
      → decision (a.authenticate ctx w).0 ≡ some r
      → consult p ctx (a ∷ rest) w ≡ (r, (a.authenticate ctx w).1)
  unfolding consult
  consult_head a rest w r e = ground arith

  pub consult_decided :
      (before after : List (Authenticator U S W)) (a : Authenticator U S W) (w v : W)
      (r : Result (Outcome U))
      → Declines ctx before w v
      → decision (a.authenticate ctx v).0 ≡ some r
      → consult p ctx (before ++ a ∷ after) w ≡ (r, (a.authenticate ctx v).1)
  consult_decided [] after a w v r h e = rw h (consult_head a after v r e)
  consult_decided (b ∷ before) after a w v r (u, eb, h) e =
      consult_skip b (before ++ a ∷ after) w u eb ∙ consult_decided before after a u v r h e

  -- Nothing is lost by taking a declining authenticator out of the list.
  pub consult-AlwaysDeclines :
      (before after : List (Authenticator U S W)) (a : Authenticator U S W)
      → AlwaysDeclines ctx a
      → consult p ctx (before ++ a ∷ after) ≡ consult p ctx (before ++ after)
  unfolding consult
  consult-AlwaysDeclines [] after a h = fun_ext λ w. consult_skip a after w w (h w)
  consult-AlwaysDeclines (b ∷ before) after a h =
      ap {A = M W (Outcome U)}
        (λ k. do
          verdict ← b.authenticate ctx
          elim verdict [
            | Verdict.not_applicable ↦ k
            | Verdict.authenticated user ↦ pure (Outcome.authenticated user)
          ])
        (consult-AlwaysDeclines before after a h)

module _ {U S W : Type 0} (p : Bool) (ctx : AuthContext S)
    (before after : List (Authenticator U S W)) (a b : Authenticator U S W) where
  swap_first :
      AlwaysDeclines ctx a
      → consult p ctx (before ++ a ∷ b ∷ after) ≡ consult p ctx (before ++ b ∷ a ∷ after)
  swap_first h =
      consult-AlwaysDeclines p ctx before (b ∷ after) a h
      ∙ ap (consult p ctx) (sym (append_assoc before (b ∷ []) after))
      ∙ sym (consult-AlwaysDeclines p ctx (before ++ b ∷ []) after a h)
      ∙ ap (consult p ctx) (append_assoc before (b ∷ []) (a ∷ after))

-- Two neighbours may change places where one of them declines whatever the world.
pub consult-swap :
    {U S W : Type 0} (p : Bool) (ctx : AuthContext S) (before after : List (Authenticator U S W))
    (a b : Authenticator U S W)
    → AlwaysDeclines ctx a ⊎ AlwaysDeclines ctx b
    → consult p ctx (before ++ a ∷ b ∷ after) ≡ consult p ctx (before ++ b ∷ a ∷ after)
consult-swap p ctx before after a b (inl h) = swap_first p ctx before after a b h
consult-swap p ctx before after a b (inr h) = sym (swap_first p ctx before after b a h)

-- The answer of the first authenticator of a list.
answer_cases :
    {U : Type 0} (v : Result (Verdict U))
    → (v ≡ ok Verdict.not_applicable) ⊎ ((r : Result (Outcome U)) × (decision v ≡ some r))
answer_cases (ok (Verdict.authenticated user)) = inr (ok (Outcome.authenticated user), refl)
answer_cases (ok Verdict.not_applicable) = inl refl
answer_cases (err e) = inr (err e, refl)
answer_cases (panic t) = inr (panic t, refl)

module _ {U S W : Type 0} (ctx : AuthContext S) where
  push_Deciding :
      (a : Authenticator U S W) (rest : List (Authenticator U S W)) (w v : W)
      (r : Result (Outcome U)) (w' : W)
      → a.authenticate ctx w ≡ (ok Verdict.not_applicable, v)
      → Deciding ctx rest v r w'
      → Deciding ctx (a ∷ rest) w r w'
  push_Deciding a rest w v r w' e d = record {
    before = a ∷ d.before;
    decider = d.decider;
    after = d.after;
    listed = ap (◌∷◌ a) d.listed;
    reached = d.reached;
    declined = (v, e, d.declined);
    left = d.left;
    decided = d.decided;
  }

  -- A run of the list ends in one of two ways.
  pub Declines-or-Deciding :
      (l : List (Authenticator U S W)) (w : W)
      → ((w' : W) × Declines ctx l w w')
        ⊎ ((r : Result (Outcome U)) × (w' : W) × Deciding ctx l w r w')
  Declines-or-Deciding [] w = inl (w, refl)
  Declines-or-Deciding (a ∷ rest) w =
      let v : W = (a.authenticate ctx w).1 in
      elim (answer_cases (a.authenticate ctx w).0) [
        | inl e ↦ elim (Declines-or-Deciding rest v) [
          | inl (w', h) ↦ inl (w', (v, λ i. (e i, v), h))
          | inr (r, w', d) ↦ inr (r, w', push_Deciding a rest w v r w' (λ i. (e i, v)) d)
        ]
        | inr (r, e) ↦ inr (
          r,
          v,
          record {
            before = [];
            decider = a;
            after = rest;
            listed = refl;
            reached = w;
            declined = refl;
            left = refl;
            decided = e;
          },
        )
      ]

  -- The loop computes what the order of resolution says, and nothing else.
  pub consult_of_Deciding :
      (p : Bool) (l : List (Authenticator U S W)) (w : W) (r : Result (Outcome U)) (w' : W)
      → Deciding ctx l w r w'
      → consult p ctx l w ≡ (r, w')
  consult_of_Deciding p l w r w' d =
      rw (d.listed, ← d.left)
        (consult_decided p ctx d.before d.after d.decider w d.reached r d.declined d.decided)
