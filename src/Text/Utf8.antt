-- ===== src/Text/Utf8.antt =====
-- `String::from_utf8`: the well-formed byte sequences of Unicode, decoded.
use authn_kit.Prelude.{
  ℕ, zero, suc, ◌+◌, ◌-◌, ◌*◌, ◌/◌, ◌%◌, arith, ◌≡◌, refl, ◌&&◌, Option, none, some, List, [], ◌∷◌,
  leb, ltb, ◌==◌, if◌then◌else◌,
}
use authn_kit.Text.{Text, str}

-- What is expected after some bytes of a character: how many more there are, the value so far, and
-- the range of the next byte.
record Expect : Type 0 where
  more : ℕ
  value : ℕ
  least : ℕ
  most : ℕ

-- A character's first byte, if it takes more than one.
lead : ℕ → Option Expect
lead b =
    if leb 0xc2 b && leb b 0xdf
    then some (record { more = 1; value = b - 0xc0; least = 0x80; most = 0xbf })
    else if b == 0xe0
    then some (record { more = 2; value = 0; least = 0xa0; most = 0xbf })
    else if b == 0xed
    then some (record { more = 2; value = 0xd; least = 0x80; most = 0x9f })
    else if leb 0xe1 b && leb b 0xef
    then some (record { more = 2; value = b - 0xe0; least = 0x80; most = 0xbf })
    else if b == 0xf0
    then some (record { more = 3; value = 0; least = 0x90; most = 0xbf })
    else if leb 0xf1 b && leb b 0xf3
    then some (record { more = 3; value = b - 0xf0; least = 0x80; most = 0xbf })
    else if b == 0xf4
    then some (record { more = 3; value = 4; least = 0x80; most = 0x8f })
    else none

abbrev emit : ℕ → Option Text → Option Text
emit c none = none
emit c (some s) = some (c ∷ s)

-- `more` bytes of the current character are still to come.
decode : (more value least most : ℕ) → List ℕ → Option Text
decode zero value least most [] = some []
decode zero value least most (b ∷ s) =
    if ltb b 0x80
    then emit b (decode 0 0 0 0 s)
    else elim (lead b) [ none ↦ none | some e ↦ decode e.more e.value e.least e.most s ]
decode (suc more) value least most [] = none
decode (suc more) value least most (b ∷ s) =
    let c = value * 64 + (b - 0x80) in
    if leb least b && leb b most
    then elim more [ zero ↦ emit c (decode 0 0 0 0 s) | suc m ↦ decode (suc m) c 0x80 0xbf s ]
    else none

unfoldable pub from_utf8 : List ℕ → Option Text
unfolding decode lead
from_utf8 bytes = decode 0 0 0 0 bytes

-- `as_bytes`: the bytes of a character, and of a text
abbrev utf8_onto : ℕ → List ℕ → List ℕ
utf8_onto c rest =
    if ltb c 0x80
    then c ∷ rest
    else if ltb c 0x800
    then (0xc0 + c / 64) ∷ (0x80 + c % 64) ∷ rest
    else if ltb c 0x10000
    then (0xe0 + c / 4096) ∷ (0x80 + c / 64 % 64) ∷ (0x80 + c % 64) ∷ rest
    else (0xf0 + c / 262144)
      ∷ (0x80 + c / 4096 % 64)
      ∷ (0x80 + c / 64 % 64)
      ∷ (0x80 + c % 64)
      ∷ rest

unfoldable pub as_bytes : Text → List ℕ
as_bytes [] = []
as_bytes (c ∷ s) = utf8_onto c (as_bytes s)

utf8_onto_inj : (c d : ℕ) (s t : List ℕ) → utf8_onto c s ≡ utf8_onto d t → (c ≡ d) × (s ≡ t)
utf8_onto_inj c d s t h = ground (arith, h)

-- A text is determined by its bytes.
pub as_bytes_inj : (s t : Text) → as_bytes s ≡ as_bytes t → s ≡ t
unfolding as_bytes
as_bytes_inj [] [] h = refl
as_bytes_inj [] (d ∷ t) h = ground (arith, h)
as_bytes_inj (c ∷ s) [] h = ground (arith, h)
as_bytes_inj (c ∷ s) (d ∷ t) h =
    let (e, rest) = utf8_onto_inj c d (as_bytes s) (as_bytes t) h in cc (e, as_bytes_inj s t rest)

-- "é€😀", a stray continuation byte, and an overlong "/".
decoded :
    (from_utf8 (0xc3 ∷ 0xa9 ∷ 0xe2 ∷ 0x82 ∷ 0xac ∷ 0xf0 ∷ 0x9f ∷ 0x98 ∷ 0x80 ∷ [])
      ≡ some (str "é€😀"))
    × (from_utf8 (0x41 ∷ 0x80 ∷ []) ≡ none)
    × (from_utf8 (0xc0 ∷ 0xaf ∷ []) ≡ none)
unfolding from_utf8 str
decoded = (refl, refl, refl)
