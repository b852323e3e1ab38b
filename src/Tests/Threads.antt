-- ===== src/Tests/Threads.antt =====
-- The theorems on calls of a cache that come between each other, at two of them.
use authn_kit.Prelude.{ℕ, ◌<◌, ◌≡◌, refl, none, some, [], arith}
use authn_kit.Text.{Text, str, text_eq}
use authn_kit.Map.{lookup, insert}
use authn_kit.Cache.{
  CacheKey, key_Eq, key, key_eq, option_eq, new, tick, ttl, is_refused, is_full, with_room,
  store_entry,
}
use authn_kit.Cache.Bounds.{IsValid}
use authn_kit.Cache.Threads.{
  System, Reach, start, next, pick, begin_get, begin_insert, put, get_locked, insert_locked,
}
use authn_kit.Cache.Threads.Linear.{Reach-IsValid, Reach-hit}
use authn_kit.Tests.{small}

program : Unit {0}
unfolding str text_eq lookup insert key key_eq option_eq new tick ttl is_refused is_full with_room
    store_entry get_locked insert_locked
program = tt

abbrev visitor : CacheKey
unfolding key
visitor = key (λ t. t) none (str "m") [] (str "one")

-- a state, and how it was reached
record Run : Type 0 where
  state : System Text
  reach : Reach small state

-- A call of `get` ticks first, and then an insertion takes the lock before it.
abbrev overtaken : Run
unfolding program
overtaken = record {
  state = _;
  reach =
      next
        (next (next start (pick 0 (begin_get visitor)))
          (pick 1 (begin_insert visitor (str "ann") none refl)))
        (pick 1 (put 4 5));
}

Reach-IsValid_example :
    IsValid overtaken.state.shared.cache
    × (overtaken.state.shared.cache.clock ≡ overtaken.state.shared.ticks)
unfolding overtaken program
Reach-IsValid_example = Reach-IsValid small overtaken.state overtaken.reach (omega arith)

Reach-hit_example :
    (expires_at : ℕ) × (overtaken.state.shared.ledger visitor ≡ some (str "ann", expires_at))
    × (9 < expires_at)
unfolding overtaken program
Reach-hit_example =
    Reach-hit small overtaken.state visitor 0 9 (str "ann") overtaken.reach (omega arith) refl
