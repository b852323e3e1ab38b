-- ===== src/Gateway/Laws.antt =====
-- src/gateway.rs and the chain of src/authenticator.rs: when a request passes, anonymously or with a
-- user, and when it is refused.
use authn_kit.Prelude.{
  ◌≡◌, ◌↔◌, inl, inr, refl, sym, Bool, true, false, ◌&&◌, Option, none, some, List, ◌∷◌, ◌++◌,
  arith, Bool-cases, ◌∙◌, subst,
}
use authn_kit.Error.{AuthError}
use authn_kit.Effect.{Result, ok, err, panic, ◌>>=◌}
use authn_kit.Request.{AuthRequest}
use authn_kit.Credential.{Credential}
use authn_kit.Scope.{AuthScope}
use authn_kit.Outcome.{Outcome, anonymous}
use authn_kit.Authenticator.{AuthContext, Authenticator, consult, short_circuits, authenticate}
use authn_kit.Authenticator.Decides.{
  Declines, Deciding, decision, Declines-or-Deciding, consult_of_Declines, consult_of_Deciding,
}
use authn_kit.Gateway.{AuthGateway, challenge, answer, authenticate_with}

module _ {U S W : Type 0} ⦃s : AuthScope S⦄ (g : AuthGateway U S W) (request : AuthRequest)
    (credential : Credential) where
  abbrev pub context : AuthContext S
  context = record { request = request; credential = credential; scope = g.scopes.resolve request }

  -- The chain is not consulted.
  abbrev pub skips : Bool
  skips = s.is_public context.scope && short_circuits g.chain.policy credential

  passed : (w : W) → skips ≡ true → authenticate_with g request credential w ≡ (ok none, w)
  unfolding authenticate_with authenticate
  passed w h = rw h

  consulted :
      (w : W)
      → skips ≡ false
      → authenticate_with g request credential w
        ≡ (do
          outcome ← consult (s.is_public context.scope) context g.chain.authenticators
          answer credential context.scope outcome)
            w
  unfolding authenticate_with authenticate
  consulted w h = rw h

-- What the gateway makes of the decision of an authenticator.
abbrev pub respond : {U : Type 0} → Result (Outcome U) → Result (Option U)
respond (ok (Outcome.authenticated user)) = ok (some user)
respond (ok anonymous) = ok none
respond (ok Outcome.not_applicable) = ok none
respond (err e) = err e
respond (panic t) = panic t

module _ {U S W : Type 0} ⦃s : AuthScope S⦄ (g : AuthGateway U S W) (request : AuthRequest)
    (credential : Credential) where
  -- what the gateway answers where every authenticator declines
  abbrev pub unclaimed_answer : Result (Option U)
  unclaimed_answer = elim (s.is_public (g.scopes.resolve request)) [
    | true ↦ ok none
    | false ↦ err (challenge credential (g.scopes.resolve request))
  ]

  -- How a request is resolved: the specification of the gateway.
  pub data Resolves (w : W) (r : Result (Option U)) (w' : W) : Type 0 where
    skipped : skips g request credential ≡ true → r ≡ ok none → w' ≡ w → Resolves w r w'
    decided :
        (d : Result (Outcome U))
        → skips g request credential ≡ false
        → Deciding (context g request credential) g.chain.authenticators w d w'
        → r ≡ respond d
        → Resolves w r w'
    nobody :
        skips g request credential ≡ false
        → Declines (context g request credential) g.chain.authenticators w w'
        → r ≡ unclaimed_answer
        → Resolves w r w'

  respond_lem :
      (w w' : W) (d : Result (Outcome U))
      → skips g request credential ≡ false
      → Deciding (context g request credential) g.chain.authenticators w d w'
      → authenticate_with g request credential w ≡ (respond d, w')
  unfolding answer
  respond_lem w w' d h k =
      consulted g request credential w h
      ∙ rw (consult_of_Deciding _ _ g.chain.authenticators w d w' k) (ground arith)

  nobody_lem :
      (w w' : W)
      → skips g request credential ≡ false
      → Declines (context g request credential) g.chain.authenticators w w'
      → authenticate_with g request credential w ≡ (unclaimed_answer, w')
  unfolding answer
  nobody_lem w w' h k =
      consulted g request credential w h
      ∙ rw (consult_of_Declines _ _ g.chain.authenticators w w' k) (ground arith)

  resolves :
      (w : W)
      → (r : Result (Option U)) × (w' : W) × Resolves w r w'
        × (authenticate_with g request credential w ≡ (r, w'))
  resolves w = elim (Bool-cases (skips g request credential)) [
    | inl h ↦ (ok none, w, skipped h refl refl, passed g request credential w h)
    | inr h ↦ elim (Declines-or-Deciding (context g request credential) g.chain.authenticators w) [
      | inl (w', k) ↦ (unclaimed_answer, w', nobody h k refl, nobody_lem w w' h k)
      | inr (d, w', k) ↦ (respond d, w', decided d h k refl, respond_lem w w' d h k)
    ]
  ]

  realised :
      (w : W) (r : Result (Option U)) (w' : W)
      → Resolves w r w'
      → authenticate_with g request credential w ≡ (r, w')
  realised w r w' (skipped h er ew) = rw (er, ew) (passed g request credential w h)
  realised w r w' (decided d h k er) = rw er (respond_lem w w' d h k)
  realised w r w' (nobody h k er) = rw er (nobody_lem w w' h k)

  -- The gateway answers `r` and leaves the world `w'` exactly if this is how the request is
  -- resolved: the policy on public scopes answers without the chain and changes nothing, or the first
  -- authenticator that does not decline decides, or all decline and the scope decides.
  pub authenticate_with-Resolves :
      (w : W) (r : Result (Option U)) (w' : W)
      → (authenticate_with g request credential w ≡ (r, w')) ↔ Resolves w r w'
  authenticate_with-Resolves w r w' =
      let (r₀, w₀, k, e) = resolves w in
      (λ h. subst (λ p. Resolves w p.0 p.1) (sym e ∙ h) k, realised w r w')

  -- The chain fails closed: where some authenticators decline and the next one fails, the request is
  -- refused with that failure, whatever stands behind it in the chain.
  pub authenticate_with-fails_closed :
      (before after : List (Authenticator U S W)) (a : Authenticator U S W) (w v w' : W)
      (e : AuthError)
      → skips g request credential ≡ false
      → g.chain.authenticators ≡ before ++ a ∷ after
      → Declines (context g request credential) before w v
      → a.authenticate (context g request credential) v ≡ (err e, w')
      → authenticate_with g request credential w ≡ (err e, w')
  authenticate_with-fails_closed before after a w v w' e h l k f = realised w (err e) w' (
      decided (err e) h
        (record {
          before = before;
          decider = a;
          after = after;
          listed = l;
          reached = v;
          declined = k;
          left = λ i. (f i).1;
          decided = λ i. decision (f i).0;
        })
        refl)

  anonymous_public :
      (w : W) (w' : W) → Resolves w (ok none) w' → s.is_public (g.scopes.resolve request) ≡ true
  anonymous_public w w' (skipped h er ew) = ground arith
  anonymous_public w w' (decided d h k er) = ground arith
  anonymous_public w w' (nobody h k er) = ground arith

  -- A request passes without a user only if its scope is public.
  pub authenticate_with-anonymous :
      (w w' : W)
      → authenticate_with g request credential w ≡ (ok none, w')
      → s.is_public (g.scopes.resolve request) ≡ true
  authenticate_with-anonymous w w' h =
      anonymous_public w w' ((authenticate_with-Resolves w (ok none) w').0 h)
