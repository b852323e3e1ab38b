-- ===== src/Adapters/Cookies.antt =====
-- src/adapters/axum.rs: the cookies of a `Cookie` header.
use authn_kit.Prelude.{◌≡◌, refl, false, ◌++◌, ◌==◌, List, [], ◌∷◌, All, All-append, ap, ◌∙◌}
use authn_kit.Text.{Text, trim, is_whitespace, trim_start}
use authn_kit.Text.Splitting.{Free, IsWord, join, split-join, split_once-append, trim-word}
use authn_kit.Adapters.Axum.{pairs_of_segments, cookies_of_value}

-- A cookie that RFC 6265 lets a client send: no whitespace and no semicolon in it, and no `=` in its
-- name.
abbrev pub IsCookie : Text × Text → Type 0
IsCookie (name, value) =
    (IsWord name × Free b';' name × Free b'=' name) × (IsWord value × Free b';' value)

-- `name=value`, behind a space where it is not the first
abbrev pub pair_text : Text × Text → Text
pair_text (name, value) = name ++ b'=' ∷ value

abbrev pub spaced : List (Text × Text) → List Text
spaced [] = []
spaced (pair ∷ pairs) = (b' ' ∷ pair_text pair) ∷ spaced pairs

-- the value of a `Cookie` header with these cookies
abbrev pub cookie_text : Text × Text → List (Text × Text) → Text
cookie_text pair pairs = join b';' (pair_text pair ∷ spaced pairs)

pair-IsWord : (p : Text × Text) → IsCookie p → IsWord (pair_text p)
unfolding is_whitespace
pair-IsWord (name, value) h =
    All-append (λ c. is_whitespace c ≡ false) name (b'=' ∷ value) h.0.0 (refl, h.1.0)

pair-Free : (p : Text × Text) → IsCookie p → Free b';' (pair_text p)
pair-Free (name, value) h =
    All-append (λ c. (c == b';') ≡ false) name (b'=' ∷ value) h.0.1 (refl, h.1.1)

spaced-Free : (pairs : List (Text × Text)) → All IsCookie pairs → All (Free b';') (spaced pairs)
spaced-Free [] h = tt
spaced-Free (p ∷ pairs) (h, hs) = ((refl, pair-Free p h), spaced-Free pairs hs)

-- A segment whose trimmed text is a pair is read as that pair.
read_pair :
    (segment : Text) (segments : List Text) (p : Text × Text)
    → trim segment ≡ pair_text p
    → IsCookie p
    → pairs_of_segments (segment ∷ segments) ≡ p ∷ pairs_of_segments segments
unfolding pairs_of_segments
read_pair segment segments (name, value) t h =
    rw (t, pairs_of_segments) (rw (split_once-append b'=' name value h.0.2, pairs_of_segments))

trim_spaced : (s : Text) → trim (b' ' ∷ s) ≡ trim s
unfolding trim_start is_whitespace
trim_spaced s = refl

read_spaced :
    (pairs : List (Text × Text)) → All IsCookie pairs → pairs_of_segments (spaced pairs) ≡ pairs
unfolding pairs_of_segments
read_spaced [] h = refl
read_spaced (p ∷ pairs) (h, hs) =
    read_pair (b' ' ∷ pair_text p) (spaced pairs) p
      (trim_spaced (pair_text p) ∙ trim-word (pair_text p) (pair-IsWord p h)) h
    ∙ ap (◌∷◌ p) (read_spaced pairs hs)

-- The cookies of a header are read back, in their order, from a value that has a semicolon and a space
-- between any two.
pub cookies_of_value-cookie_text :
    (pair : Text × Text) (pairs : List (Text × Text))
    → All IsCookie (pair ∷ pairs)
    → cookies_of_value (cookie_text pair pairs) ≡ pair ∷ pairs
unfolding cookies_of_value
cookies_of_value-cookie_text pair pairs (h, hs) =
    ap pairs_of_segments
      (split-join b';' (pair_text pair) (spaced pairs) (pair-Free pair h, spaced-Free pairs hs))
    ∙ read_pair (pair_text pair) (spaced pairs) pair
        (trim-word (pair_text pair) (pair-IsWord pair h)) h
    ∙ ap (◌∷◌ pair) (read_spaced pairs hs)
