-- ===== src/Request/Params.antt =====
-- src/request.rs: query and path parameters, against the requests that carry them.
use authn_kit.Prelude.{
  ℕ, suc, ◌+◌, ◌≡◌, refl, false, some, List, [], ◌∷◌, ◌++◌, arith, All, map, length, find_map,
  position_from, get_elem?,
}
use authn_kit.Text.{Text, text_eq, split}
use authn_kit.Text.Laws.{text_eq_iff}
use authn_kit.Text.Splitting.{Free, join, split-join, split_once-append}
use authn_kit.Map.{lookup, text_Eq}
use authn_kit.Request.{AuthRequest, segment_value, query_param, path_param}

-- the segment of a pair
abbrev pub segment : Text × Text → Text
segment (name, value) = name ++ b'=' ∷ value

-- The name has neither of the two separators, and the value no `&`.
abbrev pub IsPair : Text × Text → Type 0
IsPair (name, value) = Free b'=' name × Free b'&' name × Free b'&' value

Free-segment :
    (name value : Text) → Free b'&' name → Free b'&' value → Free b'&' (name ++ b'=' ∷ value)
Free-segment [] value h k = (refl, k)
Free-segment (c ∷ name) value (n, h) k = (n, Free-segment name value h k)

Free-segments : (ps : List (Text × Text)) → All IsPair ps → All (Free b'&') (map segment ps)
Free-segments [] h = tt
Free-segments ((name, value) ∷ ps) ((_, n, v), h) =
    (Free-segment name value n v, Free-segments ps h)

find_map-segments :
    (asked : Text) (ps : List (Text × Text))
    → All IsPair ps
    → find_map (segment_value asked) (map segment ps) ≡ lookup asked ps
unfolding segment_value lookup
find_map-segments asked [] h = refl
find_map-segments asked ((name, value) ∷ ps) ((e, _, _), h) =
    ground (arith, split_once-append b'=' name value e, find_map-segments asked ps h)

-- In a query string of `name=value` segments, a parameter is the value of the first pair that has
-- exactly that name.
pub query_param-join :
    (r : AuthRequest) (asked : Text) (p : Text × Text) (ps : List (Text × Text))
    → All IsPair (p ∷ ps)
    → r.query ≡ join b'&' (map segment (p ∷ ps))
    → query_param r asked ≡ lookup asked (p ∷ ps)
unfolding query_param
query_param-join r asked p ps h q =
    rw (q, split-join b'&' (segment p) (map segment ps) (Free-segments (p ∷ ps) h))
      (find_map-segments asked (p ∷ ps) h)

-- the position of the first segment that is the parameter
position_lem :
    (param : Text) (before after : List Text) (i : ℕ)
    → All (λ w. text_eq w param ≡ false) before
    → position_from i (λ w. text_eq w param) (before ++ param ∷ after) ≡ some (i + length before)
position_lem param [] after i h = ground (arith, (text_eq_iff param param).1 refl)
position_lem param (w ∷ before) after i (n, h) =
    ground (arith, n, position_lem param before after (suc i) h)

nth_lem :
    (before after : List Text) (value : Text)
    → get_elem? (before ++ value ∷ after) (length before) ≡ some value
nth_lem [] after value = refl
nth_lem (w ∷ before) after value = nth_lem before after value

-- A path parameter is the segment of the path that stands where the route pattern has the parameter
-- for the first time.
pub path_param-join :
    (r : AuthRequest) (param value : Text) (names words after rest : List Text)
    → All (λ w. text_eq w param ≡ false) names
    → length names ≡ length words
    → All (Free b'/') (names ++ param ∷ after)
    → All (Free b'/') (words ++ value ∷ rest)
    → r.route_pattern ≡ some (join b'/' (names ++ param ∷ after))
    → r.path ≡ join b'/' (words ++ value ∷ rest)
    → path_param r param ≡ some value
unfolding path_param
path_param-join r param value names words after rest n l hn hw p q =
    let positioned = position_lem param names after 0 n in
    let found : get_elem? (split b'/' r.path) (length names) ≡ some value =
      rw (q, split-join_append words value rest hw, l) (nth_lem words rest value) in
    let pattern : split b'/' (join b'/' (names ++ param ∷ after)) ≡ names ++ param ∷ after =
      split-join_append names param after hn in
    ground (arith, p, pattern, positioned, found)
  where
    split-join_append :
        (before : List Text) (w : Text) (after : List Text)
        → All (Free b'/') (before ++ w ∷ after)
        → split b'/' (join b'/' (before ++ w ∷ after)) ≡ before ++ w ∷ after
    split-join_append [] w after h = split-join b'/' w after h
    split-join_append (b ∷ before) w after h = split-join b'/' b (before ++ w ∷ after) h
