-- ===== src/Text/Splitting.antt =====
-- What the splitting and trimming of texts undo.
use authn_kit.Prelude.{
  append-nil, ℕ, ◌≡◌, refl, true, false, none, some, List, [], ◌∷◌, ◌++◌, ◌==◌, arith, All, ap, ◌∙◌,
  ◌≢◌, sym, ==_iff, Bool-cases, inl, inr,
}
use mathlib.Core.Path.{ap₂}
use authn_kit.Text.{
  Text, is_whitespace, trim_start, trim_end, trim, split_once, split, split_by, onto,
}

-- The character does not occur in the text.
abbrev pub Free : ℕ → Text → Type 0
Free d = All (λ c. (c == d) ≡ false)

-- There is no whitespace in the text.
abbrev pub IsWord : Text → Type 0
IsWord = All (λ c. is_whitespace c ≡ false)

-- the words with one `d` between any two
unfoldable pub join : ℕ → List Text → Text
join d [] = []
join d (w ∷ []) = w
join d (w ∷ v ∷ ws) = w ++ d ∷ join d (v ∷ ws)

same_char : (d : ℕ) → (d == d) ≡ true
same_char d = ground arith

pub split_once-append : (d : ℕ) (a b : Text) → Free d a → split_once d (a ++ d ∷ b) ≡ some (a, b)
unfolding split_once
split_once-append d [] b h = rw (same_char d)
split_once-append d (c ∷ a) b (n, h) = rw (n, split_once-append d a b h)

pub split_once_none : (d : ℕ) (a : Text) → Free d a → split_once d a ≡ none
unfolding split_once
split_once_none d [] h = refl
split_once_none d (c ∷ a) (n, h) = rw (n, split_once_none d a h)

split-word : (d : ℕ) (w : Text) → Free d w → split d w ≡ w ∷ []
unfolding split_by
split-word d [] h = refl
split-word d (c ∷ w) (n, h) = rw (n, split-word d w h)

split-append : (d : ℕ) (w s : Text) → Free d w → split d (w ++ d ∷ s) ≡ w ∷ split d s
unfolding split_by
split-append d [] s h = rw (same_char d)
split-append d (c ∷ w) s (n, h) = rw (n, split-append d w s h)

-- Splitting at a character undoes joining with it, for words that do not have it.
pub split-join :
    (d : ℕ) (w : Text) (ws : List Text) → All (Free d) (w ∷ ws) → split d (join d (w ∷ ws)) ≡ w ∷ ws
unfolding join
split-join d w [] (h, _) = split-word d w h
split-join d w (v ∷ ws) (h, hs) =
    split-append d w (join d (v ∷ ws)) h ∙ ap (◌∷◌ w) (split-join d v ws hs)

pub trim_end-append : (w s : Text) → IsWord w → trim_end (w ++ s) ≡ w ++ trim_end s
unfolding trim_end
trim_end-append [] s h = refl
trim_end-append (c ∷ w) s (n, h) = ground (arith, trim_end-append w s h)

pub trim_end_idem : (s : Text) → trim_end (trim_end s) ≡ trim_end s
unfolding trim_end
trim_end_idem [] = refl
trim_end_idem (c ∷ s) = ground (arith, trim_end_idem s)

pub trim-trim_end : (s : Text) → trim (trim_end s) ≡ trim s
unfolding trim_end trim_start
trim-trim_end [] = refl
trim-trim_end (c ∷ s) = ground (arith, trim-trim_end s, trim_end_idem s)

onto-Free :
    (d c : ℕ) (ws : List Text) → (c == d) ≡ false → All (Free d) ws → All (Free d) (onto c ws)
onto-Free d c [] n h = ((n, tt), tt)
onto-Free d c (w ∷ ws) n (h, hs) = ((n, h), hs)

-- The words of a text do not have the character at which it is split.
pub split-Free : (d : ℕ) (s : Text) → All (Free d) (split d s)
unfolding split_by
split-Free d [] = (tt, tt)
split-Free d (c ∷ s) = elim (Bool-cases (c == d)) [
  | inl e ↦ rw e (tt, split-Free d s)
  | inr n ↦ rw n (onto-Free d c (split d s) n (split-Free d s))
]

join-onto : (d c : ℕ) (ws : List Text) → join d (onto c ws) ≡ c ∷ join d ws
unfolding join
join-onto d c [] = refl
join-onto d c (w ∷ []) = refl
join-onto d c (w ∷ v ∷ ws) = refl

split_ne : (d : ℕ) (s : Text) → split d s ≢ []
unfolding split_by
split_ne d [] = cc
split_ne d (c ∷ s) = ground arith

join_empty : (d : ℕ) (ws : List Text) → ws ≢ [] → join d ([] ∷ ws) ≡ d ∷ join d ws
unfolding join
join_empty d [] h = absurd (h refl)
join_empty d (w ∷ ws) h = refl

-- Joining the words at the character gives the text back.
pub join-split : (d : ℕ) (s : Text) → join d (split d s) ≡ s
unfolding split_by
join-split d [] = unfold join in refl
join-split d (c ∷ s) = elim (Bool-cases (c == d)) [
  | inl e ↦
      rw e (
        join_empty d (split d s) (split_ne d s) ∙ ap₂ ◌∷◌ (sym ((==_iff c d).0 e)) (join-split d s))
  | inr n ↦ rw n (join-onto d c (split d s) ∙ ap (◌∷◌ c) (join-split d s))
]

-- A word has nothing to trim.
pub trim-word : (w : Text) → IsWord w → trim w ≡ w
unfolding trim_start
trim-word [] h = unfold trim_end in refl
trim-word (c ∷ w) (n, h) = rw n (
    ap trim_end (sym (append-nil (c ∷ w)))
    ∙ trim_end-append (c ∷ w) [] (n, h)
    ∙ unfold trim_end in append-nil (c ∷ w))
