-- ===== src/Oidc/Provider/Flight/Once.antt =====
-- src/oidc/provider.rs: one discovery at a time, and none too soon, however the calls are interleaved.
use authn_kit.Prelude.{
  ℕ, ◌+◌, ◌≤◌, ◌≡◌, ◌≢◌, inl, inr, refl, Bool, true, false, not, ◌&&◌, Option, none, some, List, [],
  ◌∷◌, ◌==◌, if◌then◌else◌, arith, Bool-cases, ==_iff, sym, ◌∙◌, subst,
}
use mathlib.Core.Bool.{false≢true}
use authn_kit.Effect.{Clock}
use authn_kit.Oidc.Provider.{Library, Snapshot, OidcProvider, is_fresh}
use authn_kit.Oidc.Provider.Flight.{
  Phase, idle, looked, waiting, locked, fetching, storing, leaving, returned, Shared, after, Move,
  look, age, lock, drop, recheck, fail, arrive, store, unlock, System, update, Step, pick, tick,
  Reach, start, later,
}

-- the phases that stand behind the lock
abbrev pub inside : {Metadata Client : Type 0} → Phase Metadata Client → Bool
inside (locked _) = true
inside fetching = true
inside (storing _) = true
inside leaving = true
inside _ = false

-- Each time is at least the interval before the one that follows it.
abbrev pub Spaced : ℕ → ℕ → List ℕ → Type 0
Spaced interval last [] = Unit
Spaced interval last (t ∷ ts) = (t + interval ≤ last) × Spaced interval t ts

holders : {o : Option ℕ} {t u : ℕ} → o ≡ some t → o ≡ some u → u ≡ t
holders h k = cc (sym h ∙ k)

vacant : {o : Option ℕ} {u : ℕ} → o ≡ none → o ≢ some u
vacant h k = cc (sym h ∙ k)

module _ {Metadata Client IdToken Value W : Type 0}
    (library : Library Metadata Client IdToken Value W) (clock : Clock W)
    (p : OidcProvider Metadata Client W) where
  -- The snapshot may be replaced at this time.
  abbrev IsDue : Shared Metadata Client → ℕ → Type 0
  IsDue m now = m.held.state.fetched_at + p.config.min_refresh_interval ≤ now

  -- what a phase says of what is shared
  abbrev Fits : Shared Metadata Client → ℕ → Phase Metadata Client → Type 0
  Fits m t (locked _) = m.holder ≡ some t
  Fits m t fetching = (m.holder ≡ some t) × IsDue m m.now
  Fits m t (storing state) =
      (m.holder ≡ some t) × IsDue m state.fetched_at × (state.fetched_at ≤ m.now)
  Fits m t leaving = m.holder ≡ some t
  Fits m t _ = Unit

  abbrev IsTimely : Shared Metadata Client → Type 0
  IsTimely m =
      (m.held.state.fetched_at ≤ m.now)
      × Spaced p.config.min_refresh_interval m.held.state.fetched_at m.history

  Fits-holder :
      (m : Shared Metadata Client) (t : ℕ) (q : Phase Metadata Client)
      → inside q ≡ true
      → Fits m t q
      → m.holder ≡ some t
  Fits-holder m t (locked _) h f = f
  Fits-holder m t fetching h f = f.0
  Fits-holder m t (storing _) h f = f.0
  Fits-holder m t leaving h f = f
  Fits-holder m t _ h f = cc h

  outside-Fits :
      (m : Shared Metadata Client) (t : ℕ) (q : Phase Metadata Client)
      → inside q ≡ false
      → Fits m t q
  outside-Fits m t idle h = tt
  outside-Fits m t (looked _) h = tt
  outside-Fits m t (waiting _) h = tt
  outside-Fits m t returned h = tt
  outside-Fits m t _ h = cc h

  recheck-Fits :
      (m : Shared Metadata Client) (t : ℕ) (same : Bool)
      → m.held.state.fetched_at ≤ m.now
      → m.holder ≡ some t
      → Fits m t (if same && not (is_fresh library clock p m.held m.now) then fetching else leaving)
  unfolding is_fresh
  recheck-Fits m t same a h = ground (arith, a, h)

  age-Fits :
      (m : Shared Metadata Client) (t : ℕ) (b : Bool) (observed : Snapshot Metadata Client)
      → Fits m t (if b then returned else waiting observed)
  age-Fits m t true observed = tt
  age-Fits m t false observed = tt

  -- A step keeps what its own phase says.
  Move-Fits :
      (t : ℕ) (m n : Shared Metadata Client) (q r : Phase Metadata Client)
      → Move library clock p t m q n r
      → IsTimely m
      → Fits m t q
      → IsTimely n × Fits n t r
  Move-Fits t m n q r look a f = (a, tt)
  Move-Fits t m n q r age a f = (a, age-Fits m t _ _)
  Move-Fits t m n q r (lock h) a f = (a, refl)
  Move-Fits t m n q r drop a f = (a, tt)
  Move-Fits t m n q r recheck a f = (a, recheck-Fits m t _ a.0 f)
  Move-Fits t m n q r fail a f = (a, f.0)
  Move-Fits t m n q r (arrive metadata) a f = (a, (f.0, f.1, omega arith))
  Move-Fits t m n q r store a f = ((f.2, (f.1, a.1)), f.0)
  Move-Fits t m n q r unlock a f = (a, tt)

  -- Where the holder is another task, or none, a task that fits is not inside.
  elsewhere :
      (m n : Shared Metadata Client) (u : ℕ) (q : Phase Metadata Client)
      → (m.holder ≢ some u)
      → Fits m u q
      → Fits n u q
  elsewhere m n u q h f = elim (Bool-cases (inside q)) [
    | inl i ↦ absurd (h (Fits-holder m u q i f))
    | inr o ↦ outside-Fits n u q o
  ]

  -- A step keeps what the phases of the other tasks say.
  Move-others :
      (t u : ℕ) (m n : Shared Metadata Client) (q r other : Phase Metadata Client)
      → Move library clock p t m q n r
      → Fits m t q
      → u ≢ t
      → Fits m u other
      → Fits n u other
  Move-others t u m n q r other look f d g = g
  Move-others t u m n q r other age f d g = g
  Move-others t u m n q r other (lock h) f d g = elsewhere m n u other (λ e. vacant h e) g
  Move-others t u m n q r other drop f d g = g
  Move-others t u m n q r other recheck f d g = g
  Move-others t u m n q r other fail f d g = g
  Move-others t u m n q r other (arrive metadata) f d g = g
  Move-others t u m n q r other store f d g = elsewhere m n u other (λ e. d (holders f.0 e)) g
  Move-others t u m n q r other unlock f d g = elsewhere m n u other (λ e. d (holders f e)) g

  tick-Fits :
      (m : Shared Metadata Client) (n t : ℕ) (q : Phase Metadata Client)
      → Fits m t q
      → Fits (after n m) t q
  tick-Fits m n t (locked _) f = f
  tick-Fits m n t fetching f = (f.0, omega (arith, f.1))
  tick-Fits m n t (storing state) f = (f.0, f.1, omega (arith, f.2))
  tick-Fits m n t leaving f = f
  tick-Fits m n t idle f = tt
  tick-Fits m n t (looked _) f = tt
  tick-Fits m n t (waiting _) f = tt
  tick-Fits m n t returned f = tt

  -- What holds whenever the calls are interleaved.
  record IsOrderly (s : System library clock p) : Type 0 where
    timely : IsTimely s.shared
    fits : (t : ℕ) → Fits s.shared t (s.phase t)

  update-Fits :
      (m : Shared Metadata Client) (phase : ℕ → Phase Metadata Client) (t u : ℕ)
      (q : Phase Metadata Client)
      → Fits m t q
      → (u ≢ t → Fits m u (phase u))
      → Fits m u (update library clock p phase t q u)
  update-Fits m phase t u q own others = elim (Bool-cases (u == t)) [
    | inl e ↦ rw e (subst (λ v. Fits m v q) (sym ((==_iff u t).0 e)) own)
    | inr n ↦ rw n (others (λ e. false≢true (sym n ∙ (==_iff u t).1 e)))
  ]

  Step-IsOrderly :
      {s t : System library clock p} → Step library clock p s t → IsOrderly s → IsOrderly t
  Step-IsOrderly {s} (pick t {m} {q} move) o =
      let (timely, own) = Move-Fits t s.shared m (s.phase t) q move o.timely (o.fits t) in
      record {
        timely = timely;
        fits = λ u. update-Fits m s.phase t u q own (λ d.
            Move-others t u s.shared m (s.phase t) q (s.phase u) move (o.fits t) d (o.fits u));
      }
  Step-IsOrderly {s} (tick n) o = record {
    timely = (omega (arith, o.timely.0), o.timely.1);
    fits = λ t. tick-Fits s.shared n t (s.phase t) (o.fits t);
  }

  Reach-IsOrderly :
      {snapshot : Snapshot Metadata Client} {s : System library clock p}
      → Reach library clock p snapshot s
      → IsOrderly s
  Reach-IsOrderly start = record { timely = (omega arith, tt); fits = λ t. tt }
  Reach-IsOrderly (later r step) = Step-IsOrderly step (Reach-IsOrderly r)

  -- However the calls of `refresh` are interleaved, while one of them has a discovery under way no
  -- other is behind the lock, and the minimal interval has passed since the snapshot at hand was
  -- fetched.
  pub Reach-single :
      (snapshot : Snapshot Metadata Client) (s : System library clock p)
      → Reach library clock p snapshot s
      → (t u : ℕ) → s.phase t ≡ fetching
      → inside (s.phase u) ≡ true
      → (t ≡ u) × (s.shared.held.state.fetched_at + p.config.min_refresh_interval ≤ s.shared.now)
  Reach-single snapshot s r t u h k =
      let o = Reach-IsOrderly r in
      let (holds, due) = subst (Fits s.shared t) h (o.fits t) in
      (holders (Fits-holder s.shared u (s.phase u) k (o.fits u)) holds, due)

  -- However the calls of `refresh` are interleaved, each snapshot was fetched at least the minimal
  -- interval after the one before it.
  pub Reach-Spaced :
      (snapshot : Snapshot Metadata Client) (s : System library clock p)
      → Reach library clock p snapshot s
      → Spaced p.config.min_refresh_interval s.shared.held.state.fetched_at s.shared.history
  Reach-Spaced snapshot s r = (Reach-IsOrderly r).timely.1
