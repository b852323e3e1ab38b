-- ===== src/Tests/Providers.antt =====
-- A provider whose keys were replaced, its endpoints and an encoding, at which the theorems are
-- applied.
mod Logins
mod Returns
mod Grants
mod Flights
mod Actix
use authn_kit.Prelude.{
  ℕ, suc, ◌*◌, ◌-◌, arith, ◌≡◌, refl, ◌⊎◌, inl, inr, true, false, Option, none, some, List, [], ◌∷◌,
  All, map, ap, ◌∙◌, if◌then◌else◌, ◌==◌, sym,
}
use authn_kit.Text.{Text, str, text_eq, split, split_by}
use authn_kit.Text.Splitting.{Free, join, split-join}
use authn_kit.Cookie.{second}
use authn_kit.Effect.{Cell, Clock}
use authn_kit.Cache.{CredentialCache, new}
use authn_kit.Oidc.Error.{
  ClaimsVerificationError, invalid_nonce, signature_verification, no_matching_key,
}
use authn_kit.Oidc.Claims.{IdTokenClaims, pos}
use authn_kit.Oidc.Config.{OidcConfig}
use authn_kit.Oidc.Provider.{Library, NonceVerifier, equal_to, function, OidcProvider, Snapshot}
use authn_kit.Oidc.Tokens.{TokenEndpoint}
use authn_kit.Oidc.Login.{ProtectionData, Encoding, AuthorizationEndpoint}
use authn_kit.Oidc.Login.Protection.{IsFaithful}
use authn_kit.Tests.{small}

-- The world: a clock, the snapshot of the provider, and one cache.
pub record Site : Type 0 where
  pub time : ℕ
  pub held : Snapshot Text Text
  pub cached : CredentialCache Text

abbrev pub site_clock : Clock Site
site_clock = record {
  instant_now = λ w. (w.time, record w { time = suc w.time });
  system_now = λ w. (w.time, w);
}

abbrev pub site_cell : Cell Site (CredentialCache Text)
site_cell = record { load = λ w. w.cached; store = λ c w. record w { cached = c } }

-- metadata, and the client that is built of them, are the name of their keys
abbrev pub under : Text → Snapshot Text Text
under keys = record {
  address = 0;
  state = record { metadata = keys; client = keys; fetched_at = 0 };
}

abbrev pub day : Site
unfolding str new
day = record { time = 5; held = under (str "new"); cached = new small }

-- the world whose snapshot was taken before the keys changed
abbrev pub eve : Site
unfolding str new
eve = record day { held = under (str "old") }

abbrev pub claims_of : Text → IdTokenClaims Text
claims_of token = record {
  subject = token;
  expiration = pos 9;
  email = none;
  preferred_username = none;
  name = none;
  object = none;
}

-- Every token has the nonce `n`, and is signed with the new keys.
abbrev checked : NonceVerifier → Text → ClaimsVerificationError ⊎ IdTokenClaims Text
checked (equal_to nonce) token =
    if text_eq nonce (str "n") then inr (claims_of token) else inl (invalid_nonce [])
checked (function f) token = elim (f (some (str "n"))) [
  | inl e ↦ inl (invalid_nonce e)
  | inr _ ↦ inr (claims_of token)
]

abbrev pub library : Library Text Text Text Text Site
unfolding str text_eq
library = record {
  discover = λ _ w. (inr (str "new"), w);
  from_provider_metadata = λ metadata _ _. metadata;
  set_redirect_uri = λ _ client. client;
  parse = λ text. elim text [ [] ↦ inl (str "empty") | c ∷ s ↦ inr (c ∷ s) ];
  claims = λ client nonce token w.
      if text_eq client (str "old")
      then (inl (signature_verification no_matching_key), w)
      else (checked nonce token, w);
  show = λ _. [];
}

abbrev pub config : OidcConfig
unfolding str
config = record {
  issuer_url = str "https://i";
  client_id = str "id";
  client_secret = none;
  redirect_url = str "https://a/cb";
  scopes = str "openid" ∷ [];
  min_refresh_interval = 3;
  use_pkce = true;
}

abbrev pub provider : OidcProvider Text Text Site
provider = record {
  config = config;
  state = record { load = λ w. w.held; store = λ s w. record w { held = s } };
  wait = λ w. w;
}

-- The token endpoint answers a request with the ID token that the request is.
abbrev pub endpoint : TokenEndpoint Text Text Text Site
unfolding str
endpoint = record {
  exchange_password = λ client id secret. inr id;
  exchange_client_credentials = λ client. inr client;
  exchange_code = λ client code. inr code;
  add_scope = λ scope request. request;
  set_pkce_verifier = λ verifier request. request;
  request_async = λ request w. (inr request, w);
  expires_in = λ response. none;
  id_token = λ response. some response;
  debug = λ e. [];
}

abbrev pub authorization : AuthorizationEndpoint Text Text Text Site
unfolding str
authorization = record {
  new_random_sha256 = λ w. ((str "challenge", str "verifier"), w);
  authorize_url = λ client w. (str "https://i/auth", w);
  add_scope = λ scope request. request;
  set_pkce_challenge = λ challenge request. request;
  url = λ request. (request, str "state", str "n");
}

-- Protection data are written as words between zeros, whose symbols are moved up by one; there are
-- four with a verifier, and three without.
abbrev up : Text → Text
up s = map suc s

abbrev down : Text → Text
down s = map (λ c. c - 1) s

abbrev words : ProtectionData → List Text
words p = up p.csrf ∷ up p.nonce ∷ up p.destination ∷ verifier_words p.pkce_verifier
  where
    verifier_words : Option Text → List Text
    verifier_words none = []
    verifier_words (some v) = up v ∷ []

abbrev of_words : List Text → Text ⊎ ProtectionData
of_words (csrf ∷ nonce ∷ destination ∷ []) = inr (record {
  csrf = down csrf;
  nonce = down nonce;
  pkce_verifier = none;
  destination = down destination;
})
of_words (csrf ∷ nonce ∷ destination ∷ verifier ∷ []) = inr (record {
  csrf = down csrf;
  nonce = down nonce;
  pkce_verifier = some (down verifier);
  destination = down destination;
})
of_words _ = inl (str "damaged")

abbrev pub encoding : Encoding
unfolding str join split_by
encoding = record {
  to_vec = λ p. inr (join 0 (words p));
  from_slice = λ bytes. of_words (split 0 bytes);
  encode64 = λ bytes. bytes;
  decode64 = λ text. inr text;
}

up-Free : (s : Text) → Free 0 (up s)
up-Free [] = tt
up-Free (c ∷ s) = (ground arith, up-Free s)

down-up : (s : Text) → down (up s) ≡ s
down-up [] = refl
down-up (c ∷ s) = λ i. (c_up i) ∷ down-up s i
  where
    c_up : suc c - 1 ≡ c
    c_up = omega arith

parses :
    (verifier : Option Text) (csrf nonce destination : Text)
    → (let p : ProtectionData = record {
      csrf = csrf;
      nonce = nonce;
      pkce_verifier = verifier;
      destination = destination;
    } in
        of_words (split 0 (join 0 (words p))) ≡ inr p)
parses none csrf nonce destination =
    ap of_words (
      split-join 0 (up csrf) (up nonce ∷ up destination ∷ [])
        (up-Free csrf, (up-Free nonce, (up-Free destination, tt))))
    ∙ (λ i. inr (record {
      csrf = down-up csrf i;
      nonce = down-up nonce i;
      pkce_verifier = none;
      destination = down-up destination i;
    }))
parses (some v) csrf nonce destination =
    ap of_words (
      split-join 0 (up csrf) (up nonce ∷ up destination ∷ up v ∷ [])
        (up-Free csrf, (up-Free nonce, (up-Free destination, (up-Free v, tt)))))
    ∙ (λ i. inr (record {
      csrf = down-up csrf i;
      nonce = down-up nonce i;
      pkce_verifier = some (down-up v i);
      destination = down-up destination i;
    }))

inr_inj : {A : Type 0} {a b : A} → ◌≡◌ {A = Text ⊎ A} (inr a) (inr b) → a ≡ b
inr_inj h = cc

pub encoding-IsFaithful : IsFaithful encoding
unfolding encoding
encoding-IsFaithful = record {
  decodes = λ bytes. refl;
  parses = λ p json h.
      ap (λ s. of_words (split 0 s)) (sym (inr_inj h))
      ∙ parses p.pkce_verifier p.csrf p.nonce p.destination;
}
