-- ===== src/Gateway/Sources.antt =====
-- src/gateway.rs: every user that a gateway lets pass comes from an authenticator of its chain.
use authn_kit.Prelude.{◌≡◌, some, List, [], ◌∷◌, ◌++◌, All, sym, ap, ◌∙◌, arith}
use authn_kit.Effect.{Result, ok, err, panic}
use authn_kit.Request.{AuthRequest}
use authn_kit.Credential.{Credential}
use authn_kit.Scope.{AuthScope}
use authn_kit.Outcome.{Verdict, Outcome, anonymous}
use authn_kit.Authenticator.{Authenticator}
use authn_kit.Authenticator.Decides.{decision}
use authn_kit.Gateway.{AuthGateway, authenticate_with}
use authn_kit.Gateway.Laws.{
  context, respond, Resolves, skipped, decided, nobody, authenticate_with-Resolves,
}

respond-user :
    {U : Type 0} (d : Result (Outcome U)) (user : U)
    → respond d ≡ ok (some user)
    → d ≡ ok (Outcome.authenticated user)
respond-user (ok (Outcome.authenticated user)) u h = cc h
respond-user (ok anonymous) u h = cc h
respond-user (ok Outcome.not_applicable) u h = cc h
respond-user (err e) u h = cc h
respond-user (panic t) u h = cc h

decision-user :
    {U : Type 0} (r : Result (Verdict U)) (user : U)
    → decision r ≡ some (ok (Outcome.authenticated user))
    → r ≡ ok (Verdict.authenticated user)
decision-user (ok (Verdict.authenticated user)) u h = cc h
decision-user (ok Verdict.not_applicable) u h = cc h
decision-user (err e) u h = cc h
decision-user (panic t) u h = cc h

All-middle :
    {A : Type 0} (P : A → Type 0) (before after : List A) (x : A)
    → All P (before ++ x ∷ after)
    → P x
All-middle P [] after x h = h.0
All-middle P (y ∷ before) after x h = All-middle P before after x h.1

module _ {U S W : Type 0} ⦃s : AuthScope S⦄ (g : AuthGateway U S W) (request : AuthRequest)
    (credential : Credential) where
  -- A user that passes was authenticated by an authenticator of the chain.
  resolved :
      (P : Authenticator U S W → Type 0) (user : U) (w w' : W)
      → Resolves g request credential w (ok (some user)) w'
      → All P g.chain.authenticators
      → (a : Authenticator U S W) × (v : W) × P a
        × ((a.authenticate (context g request credential) v).0 ≡ ok (Verdict.authenticated user))
  resolved P user w w' (skipped h er ew) all = cc er
  resolved P user w w' (decided d h k er) all = (
    k.decider,
    k.reached,
    All-middle P k.before k.after k.decider (rw k.listed at all),
    decision-user _ user (k.decided ∙ ap some (respond-user d user (sym er))),
  )
  resolved P user w w' (nobody h k er) all = ground (arith, er)

  -- What every authenticator of the chain makes sure of whenever it authenticates a user holds of
  -- each user that the gateway lets pass.
  pub authenticate_with-All :
      (Q : U → Type 0) (user : U) (w : W)
      → All
          (λ a.
            (v : W) (u : U)
            → (a.authenticate (context g request credential) v).0 ≡ ok (Verdict.authenticated u)
            → Q u)
          g.chain.authenticators
      → (authenticate_with g request credential w).0 ≡ ok (some user)
      → Q user
  authenticate_with-All Q user w all h =
      let w' = (authenticate_with g request credential w).1 in
      let (a, v, sure, made) =
        resolved _ user w w'
          ((authenticate_with-Resolves g request credential w (ok (some user)) w').0
            (λ i. (h i, w')))
          all in
      sure v user made
