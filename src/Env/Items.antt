-- ===== src/Env/Items.antt =====
-- src/env.rs: lists of settings, parted by spaces or commas.
use authn_kit.Prelude.{
  ℕ, ◌≡◌, ◌≢◌, refl, Bool, true, false, ◌||◌, ◌++◌, ◌==◌, not, List, [], ◌∷◌, map, filter, is_empty,
  arith, All, ap, ◌∙◌, ◌⊎◌,
}
use authn_kit.Text.{Text, trim, trim_start, trim_end, split_by, is_whitespace}
use authn_kit.Text.Splitting.{IsWord, trim-word, join}
use authn_kit.Env.{items}

-- a separator of a list
abbrev parts : ℕ → Bool
parts c = c == b' ' || c == b','

-- An item: not empty, without whitespace and without a comma.
abbrev pub IsItem : Text → Type 0
IsItem w = (w ≢ []) × IsWord w × All (λ c. (c == b',') ≡ false) w

unparted : (w : Text) → IsWord w → All (λ c. (c == b',') ≡ false) w → All (λ c. parts c ≡ false) w
unparted [] h k = tt
unparted (c ∷ w) (n, h) (m, k) = (unfold is_whitespace in ground (arith, n, m), unparted w h k)

split-word : (w : Text) → All (λ c. parts c ≡ false) w → split_by parts w ≡ w ∷ []
unfolding split_by
split-word [] h = refl
split-word (c ∷ w) (n, h) = rw n (rw (split-word w h))

split-append :
    (d : ℕ) (w s : Text)
    → parts d ≡ true
    → All (λ c. parts c ≡ false) w
    → split_by parts (w ++ d ∷ s) ≡ w ∷ split_by parts s
unfolding split_by
split-append d [] s p h = rw p
split-append d (c ∷ w) s p (n, h) = rw n (rw (split-append d w s p h))

split-joined :
    (d : ℕ) (w : Text) (ws : List Text)
    → parts d ≡ true
    → All IsItem (w ∷ ws)
    → split_by parts (join d (w ∷ ws)) ≡ w ∷ ws
unfolding join
split-joined d w [] p ((_, word, comma), _) = split-word w (unparted w word comma)
split-joined d w (v ∷ ws) p ((_, word, comma), rest) =
    split-append d w (join d (v ∷ ws)) p (unparted w word comma)
    ∙ ap (◌∷◌ w) (split-joined d v ws p rest)

full : (w : Text) → w ≢ [] → is_empty w ≡ false
full [] h = absurd (h refl)
full (c ∷ w) h = refl

kept : (ws : List Text) → All IsItem ws → filter (λ item. not (is_empty item)) (map trim ws) ≡ ws
kept [] h = refl
kept (w ∷ ws) ((filled, word, _), rest) =
    rw (trim-word w word) (rw (full w filled) (ap (◌∷◌ w) (kept ws rest)))

-- Items that are joined at a separator, a space or a comma, are read back.
pub items-join :
    (d : ℕ) (ws : List Text) → (d ≡ b' ') ⊎ (d ≡ b',') → All IsItem ws → items (join d ws) ≡ ws
unfolding items
items-join d [] p h = unfold join split_by trim_start trim_end in refl
items-join d (w ∷ ws) p h =
    ap (λ words. filter (λ item. not (is_empty item)) (map trim words))
      (split-joined d w ws (ground (arith, p)) h)
    ∙ kept (w ∷ ws) h
