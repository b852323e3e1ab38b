-- ===== src/Oidc/Login/Callback.antt =====
-- src/oidc/login.rs: the parameters of the provider's callback. `parse` is the `form_urlencoded`
-- parser of the `url` crate.
use authn_kit.Prelude.{
  ◌≡◌, refl, ap, ◌∙◌, true, false, Option, none, some, or_else, List, [], ◌∷◌, arith, if◌then◌else◌,
}
use authn_kit.Text.{Text, str, text_eq}
use authn_kit.Text.Laws.{text_eq_iff}
use authn_kit.Error.{malformed_credential}
use authn_kit.Effect.{Result, ok, err}
use authn_kit.Oidc.Login.{CallbackParams, success, failure}

-- the variables of the loop
pub record Found : Type 0 where
  pub code : Option Text
  pub state : Option Text
  pub error : Option Text
  pub description : Option Text

-- the match on a key
unfoldable pub note : Text → Text → Found → Found
note key value f =
    if text_eq key (str "code")
    then record f { code = some value }
    else if text_eq key (str "state")
    then record f { state = some value }
    else if text_eq key (str "error")
    then record f { error = some value }
    else if text_eq key (str "error_description")
    then record f { description = some value }
    else f

unfoldable pub collect : List (Text × Text) → Found → Found
unfolding note
collect [] f = f
collect ((key, value) ∷ pairs) f = collect pairs (note key value f)

-- what follows the loop
unfoldable pub params_of :
    Option Text → Option Text → Option Text → Option Text → Result CallbackParams
params_of (some error) description code state = ok (failure error description)
params_of none description (some code) (some state) = ok (success code state)
params_of none description (some code) none =
    err (malformed_credential (str "callback carried neither an authorization code nor an error"))
params_of none description none state =
    err (malformed_credential (str "callback carried neither an authorization code nor an error"))

unfoldable pub from_query : (Text → List (Text × Text)) → Text → Result CallbackParams
unfolding collect params_of
from_query parse query =
    let f =
      collect (parse query)
        (record { code = none; state = none; error = none; description = none }) in
    params_of f.error f.description f.code f.state

-- The value of the last pair with this key.
abbrev pub last_value : Text → List (Text × Text) → Option Text
last_value key [] = none
last_value key ((k, value) ∷ pairs) =
    or_else (last_value key pairs) (if text_eq k key then some value else none)

-- a value, if the key is this one
abbrev if_key : Text → Text → Text → Option Text
if_key name key value = if text_eq key name then some value else none

-- Two names are not both the key.
apart : (key a b : Text) → text_eq a b ≡ false → text_eq key a ≡ true → text_eq key b ≡ false
apart key a b n h = rw ((text_eq_iff key a).0 h) n

note_fields :
    (key value : Text) (f : Found)
    → note key value f ≡ record {
      code = or_else (if_key (str "code") key value) f.code;
      state = or_else (if_key (str "state") key value) f.state;
      error = or_else (if_key (str "error") key value) f.error;
      description = or_else (if_key (str "error_description") key value) f.description;
    }
unfolding note str text_eq
note_fields key value f = ground (
  arith,
  apart key (str "code") (str "state") refl,
  apart key (str "code") (str "error") refl,
  apart key (str "code") (str "error_description") refl,
  apart key (str "state") (str "error") refl,
  apart key (str "state") (str "error_description") refl,
  apart key (str "error") (str "error_description") refl,
)

or_else_assoc : {A : Type 0} (o p q : Option A) → or_else o (or_else p q) ≡ or_else (or_else o p) q
or_else_assoc none p q = refl
or_else_assoc (some a) p q = refl

-- each variable after the loop: the last value, or else what it was
abbrev latest : List (Text × Text) → Found → Found
latest pairs f = record {
  code = or_else (last_value (str "code") pairs) f.code;
  state = or_else (last_value (str "state") pairs) f.state;
  error = or_else (last_value (str "error") pairs) f.error;
  description = or_else (last_value (str "error_description") pairs) f.description;
}

collect-latest : (pairs : List (Text × Text)) (f : Found) → collect pairs f ≡ latest pairs f
unfolding collect
collect-latest [] f = refl
collect-latest ((key, value) ∷ pairs) f =
    collect-latest pairs (note key value f) ∙ ap (latest pairs) (note_fields key value f) ∙ (λ i.
      record {
        code =
            or_else_assoc (last_value (str "code") pairs) (if_key (str "code") key value) f.code i;
        state =
            or_else_assoc (last_value (str "state") pairs) (if_key (str "state") key value) f.state
              i;
        error =
            or_else_assoc (last_value (str "error") pairs) (if_key (str "error") key value) f.error
              i;
        description =
            or_else_assoc (last_value (str "error_description") pairs)
              (if_key (str "error_description") key value) f.description i;
      })

or_else_none : {A : Type 0} (o : Option A) → or_else o none ≡ o
or_else_none none = refl
or_else_none (some a) = refl

-- The callback is read from the last value of each parameter, whatever else the query holds.
pub from_query-last_value :
    (parse : Text → List (Text × Text)) (query : Text)
    → from_query parse query
      ≡ params_of
          (last_value (str "error") (parse query))
          (last_value (str "error_description") (parse query))
          (last_value (str "code") (parse query))
          (last_value (str "state") (parse query))
unfolding from_query
from_query-last_value parse query =
    let pairs = parse query in
    ap (λ (f : Found). params_of f.error f.description f.code f.state) (collect-latest pairs _)
    ∙ (λ i.
        params_of (or_else_none (last_value (str "error") pairs) i)
          (or_else_none (last_value (str "error_description") pairs) i)
          (or_else_none (last_value (str "code") pairs) i)
          (or_else_none (last_value (str "state") pairs) i))
