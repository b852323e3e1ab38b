-- ===== src/Mechanisms/Bearer/Jws.antt =====
-- src/mechanisms/bearer.rs: the shape of a compact JWS.
use authn_kit.Prelude.{
  ◌≡◌, ◌≢◌, ◌↔◌, refl, true, false, List, [], ◌∷◌, ◌++◌, arith, ap, ◌∙◌, sym, is_empty,
}
use authn_kit.Text.{Text, split}
use authn_kit.Text.Splitting.{Free, join, split-join, join-split, split-Free}
use authn_kit.Mechanisms.Bearer.{has_three, is_compact_jws}

-- Three segments that are not empty and hold no dot, with a dot between any two.
pub record IsJws (token : Text) : Type 0 where
  pub header : Text
  pub payload : Text
  pub signature : Text
  pub present : (header ≢ []) × (payload ≢ []) × (signature ≢ [])
  pub dotless : Free b'.' header × Free b'.' payload × Free b'.' signature
  pub spelled : token ≡ header ++ b'.' ∷ (payload ++ b'.' ∷ signature)

full : (a : Text) → (is_empty a ≡ false) ↔ (a ≢ [])
full [] = ground arith
full (c ∷ s) = (λ _. cc, λ _. refl)

has_three_iff :
    (a b c : Text) → (has_three (a ∷ b ∷ c ∷ []) ≡ true) ↔ ((a ≢ []) × (b ≢ []) × (c ≢ []))
has_three_iff a b c = ground (arith, full a, full b, full c)

of_words :
    (token : Text) (ws : List Text) → split b'.' token ≡ ws → has_three ws ≡ true → IsJws token
of_words token [] e h = cc
of_words token (a ∷ []) e h = cc
of_words token (a ∷ b ∷ []) e h = cc
of_words token (a ∷ b ∷ c ∷ d ∷ ws) e h = cc
of_words token (a ∷ b ∷ c ∷ []) e h =
    let (fa, (fb, (fc, _))) = rw e at (split-Free b'.' token) in
    record {
      header = a;
      payload = b;
      signature = c;
      present = (has_three_iff a b c).0 h;
      dotless = (fa, fb, fc);
      spelled = sym (join-split b'.' token) ∙ ap (join b'.') e ∙ unfold join in refl;
    }

-- A token passes the check exactly if it is three segments that are not empty, with dots between them.
pub is_compact_jws_iff : (token : Text) → (is_compact_jws token ≡ true) ↔ IsJws token
unfolding is_compact_jws join
is_compact_jws_iff token = (
  λ h. of_words token (split b'.' token) refl h,
  λ j.
      let words =
        split-join b'.' j.header (j.payload ∷ j.signature ∷ [])
          (j.dotless.0, (j.dotless.1, (j.dotless.2, tt))) in
      ap has_three (ap (split b'.') j.spelled ∙ words)
      ∙ (has_three_iff j.header j.payload j.signature).1 j.present,
)
