-- ===== src/Tests/Chains.antt =====
-- The theorems on the gateway, its chain and its builder, at an office whose lobby is public.
use authn_kit.Prelude.{ℕ, suc, ◌≡◌, ◌≢◌, ◌↔◌, refl, true, false, List, [], ◌∷◌}
use authn_kit.Text.{Text, str}
use authn_kit.Error.{upstream}
use authn_kit.Effect.{ok, err}
use authn_kit.Request.{AuthRequest, builder, with_path}
use authn_kit.Credential.{Credential, bearer, scheme, is_none}
use authn_kit.Outcome.{Verdict}
use authn_kit.Authenticator.{
  Authenticator, optional, short_circuits, consult, authenticate, with, chain_is_empty,
}
use authn_kit.Gateway.{AuthGateway, authenticate_with, answer, challenge, new}
use authn_kit.Gateway.Laws.{Resolves, authenticate_with-Resolves, authenticate_with-anonymous}
use authn_kit.Builder.{new_builder, build, with_if, add}
use authn_kit.Builder.Laws.{register, build-register}
use authn_kit.Tests.{Realm, lobby, realm_scope, realms}

program : Unit {0}
unfolding str with_path scheme is_none short_circuits consult authenticate answer challenge
    authenticate_with new_builder build with_if add with chain_is_empty new realm_scope
program = tt

-- An authenticator that counts the requests, and one that is out of order.
abbrev counter : Authenticator Text Realm ℕ
counter = record { name = []; authenticate = λ ctx w. (ok Verdict.not_applicable, suc w) }

abbrev broken : Authenticator Text Realm ℕ
broken = record { name = []; authenticate = λ ctx w. (err (upstream (str "down")), w) }

abbrev silent : Authenticator Text Realm ℕ
silent = record { name = []; authenticate = λ ctx w. (ok Verdict.not_applicable, w) }

abbrev gateway : AuthGateway Text Realm ℕ
gateway = record {
  scopes = realms;
  chain = record { authenticators = counter ∷ broken ∷ silent ∷ []; policy = optional };
}

abbrev desk : AuthRequest
unfolding str with_path
desk = with_path (str "/desk") builder

authenticate_with-Resolves_example :
    (authenticate_with gateway builder (bearer (str "x")) 0 ≡ (err (upstream (str "down")), 1))
    ↔ Resolves gateway builder (bearer (str "x")) 0 (err (upstream (str "down"))) 1
authenticate_with-Resolves_example =
    authenticate_with-Resolves gateway builder (bearer (str "x")) 0 (err (upstream (str "down"))) 1

authenticate_with-anonymous_example : realm_scope.is_public lobby ≡ true
unfolding program
authenticate_with-anonymous_example =
    authenticate_with-anonymous gateway builder Credential.none 0 0 refl

build-register_example :
    (build (register ((true, counter) ∷ (false, silent) ∷ (true, broken) ∷ []) (new_builder realms))
      ≡ ok (new realms (record { authenticators = counter ∷ broken ∷ []; policy = optional })))
    ↔ ((◌≢◌ {A = List (Authenticator Text Realm ℕ)} (counter ∷ broken ∷ []) [])
        × (new realms (record { authenticators = counter ∷ broken ∷ []; policy = optional })
            ≡ new realms (record { authenticators = counter ∷ broken ∷ []; policy = optional })))
build-register_example =
    build-register realms ((true, counter) ∷ (false, silent) ∷ (true, broken) ∷ [])
      (new realms (record { authenticators = counter ∷ broken ∷ []; policy = optional }))
