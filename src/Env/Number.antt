-- ===== src/Env/Number.antt =====
-- `u64::from_str`, which src/env.rs reads a number of seconds with.
use authn_kit.Prelude.{
  ℕ, zero, suc, ◌+◌, ◌-◌, ◌*◌, ◌/◌, ◌%◌, ◌<◌, ◌≡◌, refl, ap, ◌∙◌, ◌≤◌, ◌&&◌, ◌⊎◌, inl, inr, ◌==◌,
  leb, ltb, [], ◌∷◌, arith, Bool-cases, false, is_empty, if◌then◌else◌,
}
use authn_kit.Text.Splitting.{IsWord, trim-word}
use authn_kit.Text.{Text, str, trim, is_whitespace, digits_onto, to_decimal}

-- The digits that are left, onto the number that was read.
unfoldable pub digits_from : ℕ → Text → Text ⊎ ℕ
digits_from n [] = inr n
digits_from n (c ∷ s) =
    if leb b'0' c && leb c b'9'
    then (let m = n * 10 + (c - b'0') in
        let rest = digits_from m s in
        if ltb m 18446744073709551616
        then rest
        else inl (str "number too large to fit in target type"))
    else inl (str "invalid digit found in string")

-- A `+` that is not alone may stand in front.
unfoldable pub parse_u64 : Text → Text ⊎ ℕ
unfolding digits_from
parse_u64 [] = inl (str "cannot parse integer from empty string")
parse_u64 (c ∷ []) = digits_from 0 (c ∷ [])
parse_u64 (c ∷ d ∷ s) = if c == b'+' then digits_from 0 (d ∷ s) else digits_from 0 (c ∷ d ∷ s)

digits_from-digit :
    (n d : ℕ) (acc : Text)
    → d < 10
    → n * 10 + d < 18446744073709551616
    → digits_from n ((b'0' + d) ∷ acc) ≡ digits_from (n * 10 + d) acc
unfolding digits_from
digits_from-digit n d acc h k =
    let shown : (b'0' + d) - b'0' ≡ d = omega arith in rw shown (ground arith)

digits_from-digits_onto :
    (f n : ℕ) (acc : Text)
    → n < f
    → n < 18446744073709551616
    → digits_from 0 (digits_onto f n acc) ≡ digits_from n acc
unfolding digits_onto
digits_from-digits_onto zero n acc h k = absurd (omega arith)
digits_from-digits_onto (suc f) n acc h k = elim (Bool-cases (leb n 9)) [
  | inl b ↦
      let small : 0 * 10 + n % 10 ≡ n = ground arith in
      rw b (
        digits_from-digit 0 (n % 10) acc (omega arith) (ground arith)
        ∙ ap (λ m. digits_from m acc) small)
  | inr b ↦
      let whole : n / 10 * 10 + n % 10 ≡ n = omega arith in
      rw b (
        digits_from-digits_onto f (n / 10) ((b'0' + n % 10) ∷ acc) (ground arith) (omega arith)
        ∙ digits_from-digit (n / 10) (n % 10) acc (omega arith) (omega arith)
        ∙ ap (λ m. digits_from m acc) whole)
]

-- A digit comes first.
abbrev StartsDigit : Text → Type 0
StartsDigit [] = ⊥
StartsDigit (c ∷ s) = (b'0' ≤ c) × (c ≤ b'9')

digits_onto-StartsDigit : (f n : ℕ) (acc : Text) → n < f → StartsDigit (digits_onto f n acc)
unfolding digits_onto
digits_onto-StartsDigit zero n acc h = absurd (omega arith)
digits_onto-StartsDigit (suc f) n acc h = elim (Bool-cases (leb n 9)) [
  | inl b ↦ rw b (omega arith)
  | inr b ↦ rw b (digits_onto-StartsDigit f (n / 10) ((b'0' + n % 10) ∷ acc) (ground arith))
]

unsigned : (s : Text) → StartsDigit s → parse_u64 s ≡ digits_from 0 s
unfolding parse_u64
unsigned [] h = elim h [ ]
unsigned (c ∷ []) h = refl
unsigned (c ∷ d ∷ s) h = ground arith

-- A number is read back from its decimal digits.
pub parse_u64-to_decimal : (n : ℕ) → n < 18446744073709551616 → parse_u64 (to_decimal n) ≡ inr n
unfolding to_decimal
parse_u64-to_decimal n h =
    unsigned (to_decimal n) (digits_onto-StartsDigit (suc n) n [] (omega arith))
    ∙ digits_from-digits_onto (suc n) n [] (omega arith) h
    ∙ unfold digits_from in refl

digit_blank : (d : ℕ) → d < 10 → is_whitespace (b'0' + d) ≡ false
unfolding is_whitespace
digit_blank d h = ground arith

digits_onto-IsWord : (f n : ℕ) (acc : Text) → IsWord acc → IsWord (digits_onto f n acc)
unfolding digits_onto
digits_onto-IsWord zero n acc h = h
digits_onto-IsWord (suc f) n acc h = elim (Bool-cases (leb n 9)) [
  | inl b ↦ rw b (digit_blank (n % 10) (omega arith), h)
  | inr b ↦ rw b (
      digits_onto-IsWord f (n / 10) ((b'0' + n % 10) ∷ acc) (digit_blank (n % 10) (omega arith), h))
]

-- The digits are not empty, and have no whitespace around them.
pub to_decimal-trim :
    (n : ℕ) → (trim (to_decimal n) ≡ to_decimal n) × (is_empty (to_decimal n) ≡ false)
unfolding to_decimal
to_decimal-trim n = (
  trim-word (to_decimal n) (digits_onto-IsWord (suc n) n [] tt),
  filled (to_decimal n) (digits_onto-StartsDigit (suc n) n [] (omega arith)),
)
  where
    filled : (s : Text) → StartsDigit s → is_empty s ≡ false
    filled [] h = elim h [ ]
    filled (c ∷ s) h = refl
