-- ===== src/Text/Laws.antt =====
-- The laws of the text operations.
use authn_kit.Prelude.{◌++◌, some, ℕ, ◌≡◌, ◌↔◌, refl, true, [], ◌∷◌, arith}
use authn_kit.Text.{strip_prefix, Text, text_eq, lower, to_ascii_lowercase}

sound : (s t : Text) → text_eq s t ≡ true → s ≡ t
unfolding text_eq
sound [] [] h = refl
sound [] (d ∷ t) h = cc
sound (c ∷ s) [] h = cc
sound (c ∷ s) (d ∷ t) h = ground (arith, sound s t)

pub text_eq_refl : (s : Text) → text_eq s s ≡ true
unfolding text_eq
text_eq_refl [] = refl
text_eq_refl (c ∷ s) = ground (arith, text_eq_refl s)

pub text_eq_iff : (s t : Text) → (text_eq s t ≡ true) ↔ (s ≡ t)
text_eq_iff s t = (sound s t, λ e. rw e (text_eq_refl t))

-- Characters that `lower` has seen are left alone by it.
pub lower_idem : (c : ℕ) → lower (lower c) ≡ lower c
unfolding lower
lower_idem c = ground arith

pub to_ascii_lowercase_idem :
    (s : Text) → to_ascii_lowercase (to_ascii_lowercase s) ≡ to_ascii_lowercase s
to_ascii_lowercase_idem [] = refl
to_ascii_lowercase_idem (c ∷ s) = cc (lower_idem c, to_ascii_lowercase_idem s)

-- What a prefix leaves.
pub strip_prefix-append : (p s : Text) → strip_prefix (p ++ s) p ≡ some s
unfolding strip_prefix
strip_prefix-append [] s = refl
strip_prefix-append (c ∷ p) s = ground (arith, strip_prefix-append p s)

pub append-strip_prefix : (s p r : Text) → strip_prefix s p ≡ some r → s ≡ p ++ r
unfolding strip_prefix
append-strip_prefix s [] r h = ground (arith, h)
append-strip_prefix [] (d ∷ p) r h = cc
append-strip_prefix (c ∷ s) (d ∷ p) r h = ground (arith, h, append-strip_prefix s p r)
