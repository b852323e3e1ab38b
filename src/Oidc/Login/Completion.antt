-- ===== src/Oidc/Login/Completion.antt =====
-- src/oidc/login.rs: what stands behind a login that completes.
use authn_kit.Prelude.{[], ◌∷◌, ◌≡◌, ◌↔◌, inl, inr, refl, Bool-cases, Option, none, some, ap}
use authn_kit.Text.{Text, text_eq}
use authn_kit.Text.Laws.{text_eq_iff}
use authn_kit.Effect.{ok, lift, Clock, ◌>>=◌}
use authn_kit.Effect.Laws.{bind-ok, ok-bind, ok_inj}
use authn_kit.Claims.{IdentityClaims}
use authn_kit.Oidc.Provider.{Library, matches, verify_id_token}
use authn_kit.Oidc.Session.{set, clear}
use authn_kit.Oidc.Tokens.{TokenEndpoint, started, exchange, carried}
use authn_kit.Oidc.Tokens.Laws.{started-ok, exchange-ok, carried-ok}
use authn_kit.Oidc.Login.{
  ProtectionData, Encoding, decode, CallbackParams, success, failure, LoginComplete, LoginFlow,
}
use authn_kit.Oidc.Login.Complete.{
  with_verifier, completed, finish, read_response, exchange_code, check_state, complete,
}

module _ {Metadata Client IdToken Value Request Response W : Type 0}
    (library : Library Metadata Client IdToken Value W)
    (endpoint : TokenEndpoint Client Request Response W) (clock : Clock W) (e : Encoding)
    (f : LoginFlow Metadata Client W) where
  -- An ID token that is verified with the nonce of the protection data in the world `v`, and the
  -- session that is made of it.
  pub record Finished (p : ProtectionData) (token : Text) (v : W) (done : LoginComplete Value)
      : Type 0 where
    pub claims : IdentityClaims Value
    pub value : Text
    pub verifies :
        (verify_id_token library clock f.provider token (matches p.nonce) v).0 ≡ ok claims
    pub encodes :
        f.codec.encode (record { id_token = token; expires_at = claims.expires_at }) ≡ ok value
    pub result :
        ◌≡◌ {A = LoginComplete Value}
          (record {
            claims = claims;
            redirect_to = p.destination;
            cookies = set f.session_cookie value ∷ clear f.protection_cookie ∷ [];
          })
          done

  -- The endpoint exchanged the code, with the verifier of the protection data, for a response whose
  -- ID token finishes the login.
  pub record Exchanged (p : ProtectionData) (code : Text) (w : W) (done : LoginComplete Value)
      : Type 0 where
    pub request : Request
    pub response : Response
    pub token : Text
    pub made : endpoint.exchange_code (f.provider.state.load w).state.client code ≡ inr request
    pub answer :
        (endpoint.request_async
          (with_verifier library endpoint clock e f p.pkce_verifier request)
          w).0
        ≡ inr response
    pub carries : endpoint.id_token response ≡ some token
    pub finished :
        Finished p token
          (endpoint.request_async
            (with_verifier library endpoint clock e f p.pkce_verifier request)
            w).1
          done

  finish-ok :
      (p : ProtectionData) (token : Text) (w : W) (done : LoginComplete Value)
      → (finish library endpoint clock e f p token w).0 ≡ ok done
      → Finished p token w done
  unfolding finish completed
  finish-ok p token w done h =
      let (claims, verifies, rest) =
        bind-ok (verify_id_token library clock f.provider token (matches p.nonce)) _ w done h in
      let session = f.codec.encode (record { id_token = token; expires_at = claims.expires_at }) in
      let (value, encodes, end) = bind-ok {W = W} (lift session) _ _ done rest in
      record {
        claims = claims;
        value = value;
        verifies = verifies;
        encodes = encodes;
        result = ok_inj end;
      }

  exchange_code-ok :
      (p : ProtectionData) (code : Text) (w : W) (done : LoginComplete Value)
      → (exchange_code library endpoint clock e f p code w).0 ≡ ok done
      → Exchanged p code w done
  unfolding exchange_code read_response
  exchange_code-ok p code w done h =
      let start = endpoint.exchange_code (f.provider.state.load w).state.client code in
      let (request, begun, h₁) = bind-ok (started endpoint start) _ w done h in
      let (made, stays) = started-ok endpoint start request w begun in
      let asked = with_verifier library endpoint clock e f p.pkce_verifier request in
      let (response, replied, h₂) = bind-ok (exchange endpoint asked) _ w done (rw stays at h₁) in
      let (answer, moves) = exchange-ok endpoint asked response w replied in
      let v = (endpoint.request_async asked w).1 in
      let (token, held, h₃) =
        bind-ok (carried endpoint (endpoint.id_token response)) _ v done (rw moves at h₂) in
      let (carries, rests) = carried-ok endpoint (endpoint.id_token response) token v held in
      record {
        request = request;
        response = response;
        token = token;
        made = made;
        answer = answer;
        carries = carries;
        finished = finish-ok p token v done (rw rests at h₃);
      }

  check_state-ok :
      (p : ProtectionData) (code state : Text) (w : W) (done : LoginComplete Value)
      → (check_state library endpoint clock e f p code state w).0 ≡ ok done
      → (state ≡ p.csrf) × Exchanged p code w done
  unfolding check_state
  check_state-ok p code state w done h = elim (Bool-cases (text_eq state p.csrf)) [
    | inl b ↦
        ((text_eq_iff state p.csrf).0 b, exchange_code-ok p code w done (rw (b, check_state) at h))
    | inr n ↦ absurd (cc (rw (n, check_state) at h))
  ]

  after_cookie :
      (code state raw : Text) (w : W) (done : LoginComplete Value)
      → ((do
        protection ← lift (decode e raw)
        check_state library endpoint clock e f protection code state)
          w).0
        ≡ ok done
      → (p : ProtectionData) × (decode e raw ≡ ok p) × (state ≡ p.csrf) × Exchanged p code w done
  after_cookie code state raw w done h =
      let (p, decodes, rest) = bind-ok {W = W} (lift (decode e raw)) _ w done h in
      let (same, exchanged) = check_state-ok p code state w done rest in
      (p, decodes, same, exchanged)

  Finished-ok :
      (p : ProtectionData) (token : Text) (w : W) (done : LoginComplete Value)
      → Finished p token w done
      → (finish library endpoint clock e f p token w).0 ≡ ok done
  unfolding finish completed
  Finished-ok p token w done x =
      rw
        (ok-bind (verify_id_token library clock f.provider token (matches p.nonce)) _ w x.claims
          x.verifies)
        (rw x.encodes (ap ok x.result))

  Exchanged-ok :
      (p : ProtectionData) (code : Text) (w : W) (done : LoginComplete Value)
      → Exchanged p code w done
      → (exchange_code library endpoint clock e f p code w).0 ≡ ok done
  unfolding exchange_code read_response
  Exchanged-ok p code w done x =
      rw (x.made, exchange_code)
        (rw x.answer (rw (x.carries, read_response) (Finished-ok p x.token _ done x.finished)))

  -- The provider returned a code and, with it, the state that the decoded protection cookie holds, and
  -- the code was exchanged with the data of that cookie.
  abbrev pub Completed : CallbackParams → Option Text → W → LoginComplete Value → Type 0
  Completed callback cookie w done =
      (code : Text) × (raw : Text) × (p : ProtectionData) × (callback ≡ success code p.csrf)
      × (cookie ≡ some raw)
      × (decode e raw ≡ ok p)
      × Exchanged p code w done

  pub complete-Exchanged :
      (callback : CallbackParams) (cookie : Option Text) (w : W) (done : LoginComplete Value)
      → (complete library endpoint clock e f callback cookie w).0 ≡ ok done
      → Completed callback cookie w done
  unfolding complete
  complete-Exchanged (failure error description) cookie w done h = cc
  complete-Exchanged (success code state) none w done h = cc
  complete-Exchanged (success code state) (some raw) w done h =
      let (p, decodes, same, exchanged) = after_cookie code state raw w done h in
      (code, raw, p, ap (success code) same, refl, decodes, exchanged)

  Completed-ok :
      (callback : CallbackParams) (cookie : Option Text) (w : W) (done : LoginComplete Value)
      → Completed callback cookie w done
      → (complete library endpoint clock e f callback cookie w).0 ≡ ok done
  unfolding complete check_state
  Completed-ok callback cookie w done (code, raw, p, called, presented, decoded, x) =
      rw (called, presented, complete)
        (rw decoded
          (rw ((text_eq_iff p.csrf p.csrf).1 refl, check_state) (Exchanged-ok p code w done x)))

  -- A login completes exactly if the provider returned a code and, with it, the state that the decoded
  -- protection cookie holds; the code is exchanged with the cookie's verifier, and the ID token of
  -- the answer is verified with the cookie's nonce. The user then goes to the destination of the
  -- cookie, with that token's session and without the cookie.
  pub complete-Completed :
      (callback : CallbackParams) (cookie : Option Text) (w : W) (done : LoginComplete Value)
      → ((complete library endpoint clock e f callback cookie w).0 ≡ ok done)
        ↔ Completed callback cookie w done
  complete-Completed callback cookie w done =
      (complete-Exchanged callback cookie w done, Completed-ok callback cookie w done)
