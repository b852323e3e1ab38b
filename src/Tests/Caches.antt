-- ===== src/Tests/Caches.antt =====
-- The theorems on the cache, at a cache of two entries.
use authn_kit.Prelude.{
  ltb, ℕ, ◌+◌, ◌*◌, ◌≤◌, ◌<◌, ◌≡◌, refl, true, none, some, List, [], ◌∷◌, arith,
}
use authn_kit.Text.{Text, str, text_eq}
use authn_kit.Cookie.{second}
use authn_kit.Map.{lookup, insert, remove, retain}
use authn_kit.Cache.{
  CacheKey, Entry, CredentialCache, key_Eq, key, key_eq, option_eq, new, tick, get, ttl, is_refused,
  insert_entry, invalidate, is_full, with_room, make_room, evict, coldest, store_entry,
}
use authn_kit.Cache.Bounds.{IsValid}
use authn_kit.Cache.Ledger.{Call, gets, inserts, run, ledger, run-IsValid, run-hit}
use authn_kit.Cache.Eviction.{with_room-le}
use authn_kit.Cache.Rounds.{Loop, make_room-Loop}
use authn_kit.Cache.Hits.{get-insert_entry}
use authn_kit.Tests.{small}

program : Unit {0}
unfolding str text_eq lookup insert remove retain key key_eq option_eq new tick get ttl is_refused
    insert_entry invalidate is_full with_room make_room evict coldest store_entry
program = tt

abbrev k₁ : CacheKey
unfolding key
k₁ = key (λ t. t) (some (str "office")) (str "m") [] (str "one")

abbrev k₂ : CacheKey
unfolding key
k₂ = key (λ t. t) (some (str "office")) (str "m") [] (str "two")

abbrev k₃ : CacheKey
unfolding key
k₃ = key (λ t. t) (some (str "lobby")) (str "m") [] (str "two")

abbrev put : CacheKey → ℕ → Call Text
put k at = inserts k (str "ann") none at at

-- Three credentials are cached, where two have room; the first was looked up last.
abbrev calls : List (Call Text)
calls = put k₁ 1 ∷ put k₂ 2 ∷ gets k₁ 3 ∷ put k₃ 4 ∷ []

abbrev full : CredentialCache Text
full = run (put k₁ 1 ∷ put k₂ 2 ∷ gets k₁ 3 ∷ []) (new small)

kept :
    ((get k₁ 9 (run calls (new small))).0 ≡ some (str "ann"))
    × ((get k₂ 9 (run calls (new small))).0 ≡ none)
unfolding program
kept = (refl, refl)

run-hit_example : (x : ℕ) × (ledger small calls (λ _. none) k₁ ≡ some (str "ann", x)) × (9 < x)
unfolding program
run-hit_example = run-hit small calls k₁ 9 (str "ann") (omega arith) refl

full-IsValid : IsValid full
full-IsValid = run-IsValid small (put k₁ 1 ∷ put k₂ 2 ∷ gets k₁ 3 ∷ []) (omega arith)

make_room-Loop_example :
    Loop 2 (retain (λ (e : Entry Text). ltb 4 e.expires_at) full.entries) (make_room 4 full).entries
unfolding program
make_room-Loop_example = make_room-Loop 4 full full-IsValid.distinct (omega arith)

with_room-le_example : (1 ≤ 2) × (is_full k₃ full ≡ true)
unfolding program
with_room-le_example =
    with_room-le k₃ 4 full k₂ k₁
      (record { value = str "ann"; expires_at = 2 + 60 * second; last_used = 1 })
      (record { value = str "ann"; expires_at = 1 + 60 * second; last_used = 2 })
      full-IsValid.distinct refl (omega arith) refl refl

get-insert_entry_example :
    (get k₃ 9 (insert_entry k₃ (str "bob") none 4 4 full).1).0 ≡ some (str "bob")
unfolding program
get-insert_entry_example = get-insert_entry k₃ (str "bob") none 4 4 9 full (refl, omega arith)
