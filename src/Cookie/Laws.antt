-- ===== src/Cookie/Laws.antt =====
-- Tests of the rendering of cookies.
use authn_kit.Prelude.{◌≡◌, refl}
use authn_kit.Text.{str}
use authn_kit.Cookie.{set, clear, with_path, display}

rendered :
    display (with_path (str "/") (set (str "a") (str "b")))
    ≡ str "a=b; Path=/; HttpOnly; Secure; SameSite=Lax"
unfolding display set with_path str
rendered = refl

cleared : display (clear (str "a")) ≡ str "a=; Max-Age=0; HttpOnly; Secure; SameSite=Lax"
unfolding display clear str
cleared = refl
