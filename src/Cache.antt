-- ===== src/Cache.antt =====
-- src/cache.rs: the bounded cache of validated credentials. An `Instant` and a `Duration` are numbers
-- of nanoseconds, and the readings of the clock are arguments. A call holds the lock throughout, but
-- for the tick, which Cache/Threads sets apart. `hash` is `blake3::hash` of a text's bytes.
pub mod Bounds
pub mod Hits
pub mod Eviction
pub mod Rounds
pub mod Ledger
pub mod Shared
pub mod Threads
use authn_kit.Prelude.{
  ℕ, zero, suc, ◌+◌, ◌-◌, ◌*◌, ◌%◌, ◌^◌, Bool, true, false, not, ◌&&◌, ◌||◌, Option, none, some,
  get_or, List, [], ◌∷◌, ltb, leb, ◌==◌, if◌then◌else◌, length, is_some, ◌≡◌, ◌↔◌, refl, arith,
}
use authn_kit.Text.{Text, str, text_eq}
use authn_kit.Text.Laws.{text_eq_iff}
use authn_kit.Cookie.{second}
use authn_kit.Map.{Eq, lookup, insert, remove, retain}

pub record CacheConfig : Type 0 where
  pub refresh_margin : ℕ
  pub fallback_ttl : ℕ
  pub max_entries : ℕ

-- `CacheConfig::default()` and the three constants
abbrev pub default_config : CacheConfig
default_config = record {
  refresh_margin = 30 * second;
  fallback_ttl = 60 * second;
  max_entries = 10_000;
}

pub record CacheKey : Type 0 where
  pub scope : Option Text
  pub mechanism : Text
  pub principal : Text
  pub digest : List ℕ

unfoldable pub option_eq : Option Text → Option Text → Bool
option_eq none none = true
option_eq none (some t) = false
option_eq (some s) none = false
option_eq (some s) (some t) = text_eq s t

unfoldable pub key_eq : CacheKey → CacheKey → Bool
unfolding option_eq
key_eq a b =
    option_eq a.scope b.scope
    && text_eq a.mechanism b.mechanism
    && text_eq a.principal b.principal
    && text_eq a.digest b.digest

pub option_eq_iff : (s t : Option Text) → (option_eq s t ≡ true) ↔ (s ≡ t)
unfolding option_eq
option_eq_iff none none = ground arith
option_eq_iff none (some t) = ground arith
option_eq_iff (some s) none = ground arith
option_eq_iff (some s) (some t) = ground (arith, text_eq_iff s t)

pub key_eq_iff : (a b : CacheKey) → (key_eq a b ≡ true) ↔ (a ≡ b)
unfolding key_eq
key_eq_iff a b = ground (
  arith,
  option_eq_iff a.scope b.scope,
  text_eq_iff a.mechanism b.mechanism,
  text_eq_iff a.principal b.principal,
  text_eq_iff a.digest b.digest,
)

instance abbrev pub key_Eq : Eq CacheKey
key_Eq = record { beq = key_eq; beq_iff = key_eq_iff }

pub record Entry (U : Type 0) : Type 0 where
  pub value : U
  pub expires_at : ℕ
  pub last_used : ℕ

pub record CredentialCache (U : Type 0) : Type 0 where
  pub entries : List (CacheKey × Entry U)
  pub config : CacheConfig
  pub clock : ℕ

unfoldable pub key : (Text → List ℕ) → Option Text → Text → Text → Text → CacheKey
key hash scope mechanism principal secret = record {
  scope = scope;
  mechanism = mechanism;
  principal = principal;
  digest = hash secret;
}

-- An `Instant` past this one cannot be represented: the seconds are an `i64`.
abbrev pub instant_limit : ℕ
instant_limit = 2 ^ 63 * second

unfoldable pub ttl : CacheConfig → Option ℕ → ℕ
ttl config expires_in = get_or expires_in config.fallback_ttl - config.refresh_margin

-- the guard of the early return
unfoldable pub is_refused : CacheConfig → Option ℕ → Bool
unfolding ttl
is_refused config expires_in = ttl config expires_in == 0 || config.max_entries == 0

module _ {U : Type 0} where
  unfoldable pub new : CacheConfig → CredentialCache U
  new config = record { entries = []; config = config; clock = 0 }

  -- `fetch_add(1)`, which wraps: the reading, and the clock after it
  unfoldable pub tick : CredentialCache U → ℕ × CredentialCache U
  tick c = (c.clock, record c { clock = (c.clock + 1) % 2 ^ 64 })

  unfoldable pub get : CacheKey → ℕ → CredentialCache U → Option U × CredentialCache U
  unfolding tick
  get k now c =
      let (t, c') = tick c in
      elim (lookup k c'.entries) [
        | none ↦ (none, c')
        | some e ↦
            if ltb now e.expires_at
            then (
              some e.value,
              record c' { entries = insert k (record e { last_used = t }) c'.entries },
            )
            else (none, c')
      ]

  -- `min_by_key(last_used)` over the entries: the first of the least
  unfoldable pub coldest : List (CacheKey × Entry U) → Option (CacheKey × ℕ)
  coldest [] = none
  coldest ((k, e) ∷ m) = elim (coldest m) [
    | none ↦ some (k, e.last_used)
    | some (j, used) ↦ if leb e.last_used used then some (k, e.last_used) else some (j, used)
  ]

  -- the `while` loop of `insert`, with fuel
  unfoldable pub evict : ℕ → ℕ → List (CacheKey × Entry U) → List (CacheKey × Entry U)
  evict zero max_entries m = m
  evict (suc fuel) max_entries m = elim (leb max_entries (length m)) [
    | false ↦ m
    | true ↦ elim (coldest m) [ none ↦ m | some (k, _) ↦ evict fuel max_entries (remove k m) ]
  ]

  unfoldable pub is_full : CacheKey → CredentialCache U → Bool
  is_full k c = leb c.config.max_entries (length c.entries) && not (is_some (lookup k c.entries))

  unfoldable pub make_room : ℕ → CredentialCache U → CredentialCache U
  unfolding evict coldest
  make_room now c =
      let live = retain (λ e. ltb now e.expires_at) c.entries in
      record c { entries = evict (length live) c.config.max_entries live }

  -- the pruning of `insert`, where `now` is read at capacity
  unfoldable pub with_room : CacheKey → ℕ → CredentialCache U → CredentialCache U
  unfolding is_full make_room
  with_room k now c = if is_full k c then make_room now c else c

  -- the end of `insert`; the Boolean says whether `Instant::now() + ttl` panics
  unfoldable pub store_entry : CacheKey → Entry U → CredentialCache U → Bool × CredentialCache U
  store_entry k e c =
      if leb instant_limit e.expires_at
      then (true, c)
      else (false, record c { entries = insert k e c.entries })

  -- `insert`, where `later` is read for the expiry. What was done before a panic stays done.
  unfoldable pub insert_entry :
      CacheKey → U → Option ℕ → ℕ → ℕ → CredentialCache U → Bool × CredentialCache U
  unfolding is_refused tick with_room store_entry
  insert_entry k value expires_in now later c =
      if is_refused c.config expires_in
      then (false, c)
      else let (t, c₁) = tick c in
        let expires_at = later + ttl c.config expires_in in
        store_entry k (record { value = value; expires_at = expires_at; last_used = t })
          (with_room k now c₁)

  unfoldable pub invalidate : CacheKey → CredentialCache U → CredentialCache U
  invalidate k c = record c { entries = remove k c.entries }

  unfoldable pub len : CredentialCache U → ℕ
  len c = length c.entries

  unfoldable pub is_empty : CredentialCache U → Bool
  unfolding len
  is_empty c = len c == 0
