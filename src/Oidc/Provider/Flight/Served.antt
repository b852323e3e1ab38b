-- ===== src/Oidc/Provider/Flight/Served.antt =====
-- src/oidc/provider.rs: calls of `refresh` that are interleaved do not block each other for good.
use authn_kit.Prelude.{
  ℕ, ◌≡◌, ◌≢◌, inl, inr, refl, Bool, true, false, none, some, ◌==◌, if◌then◌else◌, Bool-cases,
  Option-cases, ==_iff, sym, ◌∙◌, subst, ap,
}
use mathlib.Core.Bool.{false≢true}
use authn_kit.Effect.{Clock}
use authn_kit.Oidc.Provider.{Library, Snapshot, OidcProvider}
use authn_kit.Oidc.Provider.Flight.{
  Phase, waiting, locked, fetching, storing, leaving, returned, Shared, stored, Move, look, age,
  lock, drop, recheck, fail, arrive, store, unlock, System, update, Step, pick, tick, Reach, start,
  later,
}
use authn_kit.Oidc.Provider.Flight.Once.{inside}

module _ {Metadata Client IdToken Value W : Type 0}
    (library : Library Metadata Client IdToken Value W) (clock : Clock W)
    (p : OidcProvider Metadata Client W) where
  -- zero or more steps
  pub data Steps : System library clock p → System library clock p → Type 0 where
    here : {s : System library clock p} → Steps s s
    next : {s t v : System library clock p} → Step library clock p s t → Steps t v → Steps s v

  pub and_then : {s t v : System library clock p} → Steps s t → Step library clock p t v → Steps s v
  and_then here last = next last here
  and_then (next step steps) last = next step (and_then steps last)

  both_inside :
      (b : Bool)
      → inside {Metadata = Metadata} {Client = Client} (if b then fetching else leaving) ≡ true
  both_inside true = refl
  both_inside false = refl

  -- Whoever holds the lock after a step of the task `t` is that task, behind the lock.
  Move-own :
      (t : ℕ) (m n : Shared Metadata Client) (q r : Phase Metadata Client)
      → Move library clock p t m q n r
      → (m.holder ≡ some t → inside q ≡ true)
      → n.holder ≡ some t
      → inside r ≡ true
  Move-own t m n q r look f h = absurd (false≢true (f h))
  Move-own t m n q r age f h = absurd (false≢true (f h))
  Move-own t m n q r (lock free) f h = refl
  Move-own t m n q r drop f h = absurd (false≢true (f h))
  Move-own t m n q r recheck f h = both_inside _
  Move-own t m n q r fail f h = refl
  Move-own t m n q r (arrive metadata) f h = refl
  Move-own t m n q r store f h = refl
  Move-own t m n q r unlock f h = cc h

  -- or it held the lock before.
  Move-other :
      (t u : ℕ) (m n : Shared Metadata Client) (q r : Phase Metadata Client)
      → Move library clock p t m q n r
      → u ≢ t
      → n.holder ≡ some u
      → m.holder ≡ some u
  Move-other t u m n q r look d h = h
  Move-other t u m n q r age d h = h
  Move-other t u m n q r (lock free) d h = absurd (d (cc h))
  Move-other t u m n q r drop d h = h
  Move-other t u m n q r recheck d h = h
  Move-other t u m n q r fail d h = h
  Move-other t u m n q r (arrive metadata) d h = h
  Move-other t u m n q r store d h = h
  Move-other t u m n q r unlock d h = cc h

  -- The task that holds the lock is behind it.
  abbrev IsHeld : System library clock p → Type 0
  IsHeld s = (u : ℕ) → s.shared.holder ≡ some u → inside (s.phase u) ≡ true

  pub update-own :
      (phase : ℕ → Phase Metadata Client) (t : ℕ) (q : Phase Metadata Client)
      → update library clock p phase t q t ≡ q
  update-own phase t q = rw ((==_iff t t).1 refl) refl

  update-other :
      (phase : ℕ → Phase Metadata Client) (t u : ℕ) (q : Phase Metadata Client)
      → u ≢ t
      → update library clock p phase t q u ≡ phase u
  update-other phase t u q d = elim (Bool-cases (u == t)) [
    | inl e ↦ absurd (d ((==_iff u t).0 e))
    | inr n ↦ rw n refl
  ]

  Step-IsHeld : {s t : System library clock p} → Step library clock p s t → IsHeld s → IsHeld t
  Step-IsHeld {s} (pick t {m} {q} move) o u h = elim (Bool-cases (u == t)) [
    | inl e ↦
        let same = (==_iff u t).0 e in
        let own =
          Move-own t s.shared m (s.phase t) q move (o t) (subst (λ v. m.holder ≡ some v) same h) in
        rw e own
    | inr n ↦
        let d : u ≢ t = λ e. false≢true (sym n ∙ (==_iff u t).1 e) in
        rw n (o u (Move-other t u s.shared m (s.phase t) q move d h))
  ]
  Step-IsHeld {s} (tick n) o u h = o u h

  Reach-IsHeld :
      {snapshot : Snapshot Metadata Client} {s : System library clock p}
      → Reach library clock p snapshot s
      → IsHeld s
  Reach-IsHeld start = λ u h. cc h
  Reach-IsHeld (later r step) = Step-IsHeld step (Reach-IsHeld r)

  -- Some steps lead to where the lock is free, and only the phase of `u` has changed.
  abbrev Freed : ℕ → System library clock p → Type 0
  Freed u s =
      (v : System library clock p) × Steps s v
      × (v.shared.holder ≡ none)
      × ((t : ℕ) → t ≢ u → v.phase t ≡ s.phase t)

  pick_Freed :
      (s : System library clock p) (u : ℕ) (m : Shared Metadata Client) (q : Phase Metadata Client)
      → Move library clock p u s.shared (s.phase u) m q
      → Freed u (record { shared = m; phase = update library clock p s.phase u q })
      → Freed u s
  pick_Freed s u m q move (v, steps, free, others) =
      (v, next (pick u move) steps, free, λ t d. others t d ∙ update-other s.phase u t q d)

  -- a step of the task `u`, whose phase is known
  pub from :
      (s : System library clock p) (u : ℕ) (m : Shared Metadata Client)
      (q r : Phase Metadata Client)
      → s.phase u ≡ q
      → Move library clock p u s.shared q m r
      → Move library clock p u s.shared (s.phase u) m r
  from s u m q r h move = subst (λ x. Move library clock p u s.shared x m r) (sym h) move

  leaving-Freed : (s : System library clock p) (u : ℕ) → s.phase u ≡ leaving → Freed u s
  leaving-Freed s u h =
      pick_Freed s u (record s.shared { holder = none }) returned (from s u _ _ _ h unlock)
        (_, here, refl, λ t d. refl)

  fetching-Freed : (s : System library clock p) (u : ℕ) → s.phase u ≡ fetching → Freed u s
  fetching-Freed s u h =
      pick_Freed s u s.shared leaving (from s u _ _ _ h fail)
        (leaving-Freed _ u (update-own s.phase u leaving))

  inside-Freed :
      (s : System library clock p) (u : ℕ) (q : Phase Metadata Client)
      → s.phase u ≡ q
      → inside q ≡ true
      → Freed u s
  inside-Freed s u (locked observed) h k =
      pick_Freed s u s.shared _ (from s u _ _ _ h recheck) (either _)
    where
      either :
          (b : Bool)
          → Freed u (record {
            shared = s.shared;
            phase = update library clock p s.phase u (if b then fetching else leaving);
          })
      either true = fetching-Freed _ u (update-own s.phase u fetching)
      either false = leaving-Freed _ u (update-own s.phase u leaving)
  inside-Freed s u fetching h k = fetching-Freed s u h
  inside-Freed s u (storing state) h k =
      pick_Freed s u (stored library clock p s.shared state) leaving (from s u _ _ _ h store)
        (leaving-Freed _ u (update-own s.phase u leaving))
  inside-Freed s u leaving h k = leaving-Freed s u h
  inside-Freed s u _ h k = cc k

  -- The task is behind the lock, which it holds, with the snapshot that it had observed.
  abbrev pub IsServed : ℕ → Snapshot Metadata Client → System library clock p → Type 0
  IsServed t observed s = (s.phase t ≡ locked observed) × (s.shared.holder ≡ some t)

  free-IsServed :
      (s v : System library clock p) (t : ℕ) (observed : Snapshot Metadata Client)
      → Steps s v
      → v.shared.holder ≡ none
      → v.phase t ≡ waiting observed
      → (w : System library clock p) × Steps s w × IsServed t observed w
  free-IsServed s v t observed steps free h =
      (_, and_then steps (pick t (from v t _ _ _ h (lock free))), (update-own v.phase t _, refl))

  waits_outside :
      (s : System library clock p) (t : ℕ) (observed : Snapshot Metadata Client)
      → s.phase t ≡ waiting observed
      → false ≡ inside (s.phase t)
  waits_outside s t observed h = sym (ap inside h)

  -- However the calls of `refresh` were interleaved so far, a call that waits for the lock is not
  -- blocked for good: from every reachable state there are steps after which it holds the lock, with
  -- the snapshot that it had observed.
  pub Reach-IsServed :
      (snapshot : Snapshot Metadata Client) (s : System library clock p)
      → Reach library clock p snapshot s
      → (t : ℕ) (observed : Snapshot Metadata Client) → s.phase t ≡ waiting observed
      → (v : System library clock p) × Steps s v × IsServed t observed v
  Reach-IsServed snapshot s r t observed h = elim (Option-cases s.shared.holder) [
    | inl free ↦ free-IsServed s s t observed here free h
    | inr (u, e) ↦
        let behind = Reach-IsHeld r u e in
        let (v, steps, free, others) = inside-Freed s u (s.phase u) refl behind in
        let d : t ≢ u = λ same. false≢true (
          waits_outside s t observed h
          ∙ subst (λ x. inside (s.phase x) ≡ true) (sym same) behind) in
        free-IsServed s v t observed steps free (others t d ∙ h)
  ]
