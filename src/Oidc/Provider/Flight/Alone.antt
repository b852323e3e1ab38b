-- ===== src/Oidc/Provider/Flight/Alone.antt =====
-- src/oidc/provider.rs: a call of `refresh` that meets no other is a run of the steps of Flight.
use authn_kit.Prelude.{
  ℕ, suc, ◌+◌, ◌-◌, ◌≤◌, ◌≡◌, inl, inr, refl, Bool, true, false, not, ◌&&◌, Option, none, some,
  ◌==◌, if◌then◌else◌, arith, Bool-cases, Sum-cases, sym, ◌∙◌, subst, ap,
}
use authn_kit.Effect.{ok, err, Clock}
use authn_kit.Oidc.Error.{DiscoveryError, of_discovery}
use authn_kit.Oidc.Provider.{
  Library, Snapshot, OidcProvider, is_fresh, fetch_state, store, fetch_and_store, refresh_locked,
  refresh,
}
use authn_kit.Oidc.Provider.Flight.{
  Phase, idle, looked, waiting, locked, fetching, storing, leaving, returned, Shared, after, stored,
  fetched, Move, look, age, lock, drop, recheck, fail, arrive, unlock, System, update, Step, pick,
  tick,
}
use authn_kit.Oidc.Provider.Flight
use authn_kit.Oidc.Provider.Flight.Served.{Steps, here, next, update-own, from}

module _ {Metadata Client IdToken Value W : Type 0}
    (library : Library Metadata Client IdToken Value W) (clock : Clock W)
    (p : OidcProvider Metadata Client W) where
  -- What a call relies on that meets no other: the cell holds what was stored last, and its content
  -- changes neither at a reading of the clock, nor in a discovery, nor while the lock is waited for.
  -- `time` is a time that has passed in a world; it never runs back.
  pub record IsQuiet (time : W → ℕ) : Type 0 where
    pub load-store : (s : Snapshot Metadata Client) (w : W) → p.state.load (p.state.store s w) ≡ s
    pub load-instant_now : (w : W) → p.state.load (clock.instant_now w).1 ≡ p.state.load w
    pub load-discover :
        (w : W) → p.state.load (library.discover p.config.issuer_url w).1 ≡ p.state.load w
    pub load-wait : (w : W) → p.state.load (p.wait w) ≡ p.state.load w
    pub instant_now-time : (w : W) → time w ≤ (clock.instant_now w).0
    pub time-instant_now : (w : W) → (clock.instant_now w).0 ≤ time (clock.instant_now w).1
    pub time-store : (s : Snapshot Metadata Client) (w : W) → time w ≤ time (p.state.store s w)
    pub time-discover : (w : W) → time w ≤ time (library.discover p.config.issuer_url w).1
    pub time-wait : (w : W) → time w ≤ time (p.wait w)

  module _ (time : W → ℕ) (quiet : IsQuiet time) (t : ℕ) where
    -- The call `t` stands in this phase, with this holder of the lock, and what is shared is as in the
    -- world `w`.
    pub record IsAt (s : System library clock p) (q : Phase Metadata Client) (h : Option ℕ) (w : W)
        : Type 0 where
      pub phase_at : s.phase t ≡ q
      pub holder_at : s.shared.holder ≡ h
      pub held_at : s.shared.held ≡ p.state.load w
      pub now_at : s.shared.now ≤ time w

    -- Some steps lead there.
    abbrev pub Leads : System library clock p → Phase Metadata Client → Option ℕ → W → Type 0
    Leads s q h w = (v : System library clock p) × Steps library clock p s v × IsAt v q h w

    first :
        {s v : System library clock p} {q : Phase Metadata Client} {h : Option ℕ} {w : W}
        → Step library clock p s v
        → Leads v q h w
        → Leads s q h w
    first step (v, steps, at) = (v, next step steps, at)

    -- A step of the call, to where it stands after it.
    moved :
        (s : System library clock p) (m : Shared Metadata Client) (q r : Phase Metadata Client)
        {h : Option ℕ} {w : W} {end : Phase Metadata Client}
        → s.phase t ≡ q
        → Move library clock p t s.shared q m r
        → ((v : System library clock p) → v.shared ≡ m → v.phase t ≡ r → Leads v end h w)
        → Leads s end h w
    moved s m q r at move rest =
        first (pick t (from library clock p s t m q r at move))
          (rest _ refl (update-own library clock p s.phase t r))

    -- The call reads the clock.
    timed :
        (s : System library clock p) (q : Phase Metadata Client) (h : Option ℕ) (w : W)
        {end : Phase Metadata Client} {g : Option ℕ} {x : W}
        → IsAt s q h w
        → ((v : System library clock p)
            → IsAt v q h (clock.instant_now w).1
            → v.shared.now ≡ (clock.instant_now w).0
            → Leads v end g x)
        → Leads s end g x
    timed s q h w at rest =
        let n = (clock.instant_now w).0 in
        let same : s.shared.now + (n - s.shared.now) ≡ n =
          omega (arith, at.now_at, quiet.instant_now-time w) in
        first (tick (n - s.shared.now)) (
          rest _
            (record {
              phase_at = at.phase_at;
              holder_at = at.holder_at;
              held_at = at.held_at ∙ sym (quiet.load-instant_now w);
              now_at = omega (arith, same, quiet.time-instant_now w);
            })
            same)

    standing :
        (v : System library clock p) (m : Shared Metadata Client) (r : Phase Metadata Client)
        {h : Option ℕ} {w : W}
        → v.shared ≡ m
        → v.phase t ≡ r
        → m.holder ≡ h
        → m.held ≡ p.state.load w
        → m.now ≤ time w
        → IsAt v r h w
    standing v m r {h} {w} same stands holder held now = record {
      phase_at = stands;
      holder_at = ap (λ m. m.holder) same ∙ holder;
      held_at = ap (λ m. m.held) same ∙ held;
      now_at = subst (λ n. n ≤ time w) (sym (ap (λ m. m.now) same)) now;
    }

    left :
        (s : System library clock p) (w : W) → IsAt s leaving (some t) w → Leads s returned none w
    left s w at =
        moved s _ leaving returned at.phase_at unlock
          (λ v same stands. (v, here, standing v _ returned same stands refl at.held_at at.now_at))

    -- what a discovery that answers is stored as
    abbrev replacement : Snapshot Metadata Client → Metadata → ℕ → Snapshot Metadata Client
    replacement current metadata now = record {
      address = suc current.address;
      state = fetched library clock p metadata now;
    }

    undiscovered :
        (current : Snapshot Metadata Client) (e : DiscoveryError) (w : W)
        → (library.discover p.config.issuer_url w).0 ≡ inl e
        → fetch_and_store library clock p current w
          ≡ (err (of_discovery e), (library.discover p.config.issuer_url w).1)
    unfolding fetch_and_store fetch_state
    undiscovered current e w h = rw (h, fetch_and_store, fetch_state) refl

    rediscovered :
        (current : Snapshot Metadata Client) (metadata : Metadata) (w : W)
        → (library.discover p.config.issuer_url w).0 ≡ inr metadata
        → (let now = clock.instant_now (library.discover p.config.issuer_url w).1 in
            fetch_and_store library clock p current w
            ≡ (ok tt, p.state.store (replacement current metadata now.0) now.1))
    unfolding fetch_and_store fetch_state store
    rediscovered current metadata w h = rw (h, fetch_and_store, fetch_state) refl

    swapped :
        (s : System library clock p) (current : Snapshot Metadata Client) (metadata : Metadata)
        (n : ℕ) (w : W)
        → IsAt s fetching (some t) w
        → s.shared.now ≡ n
        → current ≡ p.state.load w
        → Leads s returned none (p.state.store (replacement current metadata n) w)
    swapped s current metadata n w at now same =
        moved s _ fetching (storing (fetched library clock p metadata s.shared.now)) at.phase_at
          (arrive metadata)
          (λ v kept stands. moved v _ _ leaving stands Flight.store (λ u put leaves. left u _ (
            standing u _ leaving put leaves (ap (λ m. m.holder) kept ∙ at.holder_at)
              ((λ i. record {
                address = suc (((ap (λ m. m.held) kept ∙ at.held_at ∙ sym same) i).address);
                state = fetched library clock p metadata (now i);
              })
                ∙ sym (quiet.load-store (replacement current metadata n) w))
              (omega (
                arith,
                ap (λ m. m.now) kept,
                at.now_at,
                quiet.time-store (replacement current metadata n) w,
              )))))

    fetching-Leads :
        (s : System library clock p) (current : Snapshot Metadata Client) (w : W)
        → IsAt s fetching (some t) w
        → current ≡ p.state.load w
        → Leads s returned none (fetch_and_store library clock p current w).1
    fetching-Leads s current w at same =
        let w' = (library.discover p.config.issuer_url w).1 in
        let later : IsAt s fetching (some t) w' = record {
          phase_at = at.phase_at;
          holder_at = at.holder_at;
          held_at = at.held_at ∙ sym (quiet.load-discover w);
          now_at = omega (arith, at.now_at, quiet.time-discover w);
        } in
        elim (Sum-cases (library.discover p.config.issuer_url w).0) [
          | inl (e, h) ↦
              subst (λ x. Leads s returned none x)
                (ap (λ r. r.1) (sym (undiscovered current e w h)))
                (moved s _ fetching leaving at.phase_at fail (λ v kept stands.
                  left v w'
                    (standing v _ leaving kept stands later.holder_at later.held_at later.now_at)))
          | inr (metadata, h) ↦
              subst (λ x. Leads s returned none x)
                (ap (λ r. r.1) (sym (rediscovered current metadata w h)))
                (timed s fetching (some t) w' later (λ v there reads.
                  swapped v current metadata _ _ there reads
                    (same ∙ sym (quiet.load-discover w) ∙ sym (quiet.load-instant_now w'))))
        ]

    -- where a call goes on after the lock, by the test that the code makes there
    rechecks :
        (v : System library clock p) (observed : Snapshot Metadata Client) (b : Bool)
        → ((observed.address == v.shared.held.address)
            && not (is_fresh library clock p v.shared.held v.shared.now))
          ≡ b
        → Move library clock p t v.shared
            (locked observed)
            v.shared
            (if b then fetching else leaving)
    rechecks v observed b e =
        subst
          (λ b.
            Move library clock p t v.shared (locked observed) v.shared
              (if b then fetching else leaving))
          e recheck

    ages :
        (v : System library clock p) (observed : Snapshot Metadata Client) (b : Bool)
        → is_fresh library clock p observed v.shared.now ≡ b
        → Move library clock p t v.shared
            (looked observed)
            v.shared
            (if b then returned else waiting observed)
    ages v observed b e =
        subst
          (λ b.
            Move library clock p t v.shared (looked observed) v.shared
              (if b then returned else waiting observed))
          e age

    replaced :
        (observed : Snapshot Metadata Client) (w : W)
        → (observed.address == (p.state.load w).address) ≡ false
        → refresh_locked library clock p observed w ≡ (ok tt, w)
    unfolding refresh_locked
    replaced observed w h = rw (h, refresh_locked) refl

    unchanged :
        (observed : Snapshot Metadata Client) (w : W) (b : Bool)
        → (observed.address == (p.state.load w).address) ≡ true
        → is_fresh library clock p (p.state.load w) (clock.instant_now w).0 ≡ b
        → (let w' = (clock.instant_now w).1 in
            refresh_locked library clock p observed w
            ≡ (if b then (ok tt, w') else fetch_and_store library clock p (p.state.load w) w'))
    unfolding refresh_locked
    unchanged observed w true h k = rw (h, refresh_locked) (rw k refl)
    unchanged observed w false h k = rw (h, refresh_locked) (rw k refl)

    test :
        (v : System library clock p) (observed x : Snapshot Metadata Client) (b c : Bool)
        → v.shared.held ≡ x
        → (observed.address == x.address) ≡ b
        → is_fresh library clock p v.shared.held v.shared.now ≡ c
        → ((observed.address == v.shared.held.address)
            && not (is_fresh library clock p v.shared.held v.shared.now))
          ≡ (b && not c)
    test v observed x b c same h k =
        λ i. ((ap (λ y. observed.address == y.address) same ∙ h) i) && not (k i)

    fresh_at :
        (v : System library clock p) (x : Snapshot Metadata Client) (n : ℕ) (c : Bool)
        → v.shared.held ≡ x
        → v.shared.now ≡ n
        → is_fresh library clock p x n ≡ c
        → is_fresh library clock p v.shared.held v.shared.now ≡ c
    fresh_at v x n c same reads h = (λ i. is_fresh library clock p (same i) (reads i)) ∙ h

    locked-Leads :
        (s : System library clock p) (observed : Snapshot Metadata Client) (w : W)
        → IsAt s (locked observed) (some t) w
        → Leads s returned none (refresh_locked library clock p observed w).1
    locked-Leads s observed w at =
        let w' = (clock.instant_now w).1 in
        elim (Bool-cases (observed.address == (p.state.load w).address)) [
          | inr n ↦
              subst (λ x. Leads s returned none x) (ap (λ r. r.1) (sym (replaced observed w n)))
                (moved s _ _ leaving at.phase_at
                  (rechecks s observed false
                    (test s observed (p.state.load w) false _ at.held_at n refl))
                  (λ v kept stands.
                    left v w (standing v _ leaving kept stands at.holder_at at.held_at at.now_at)))
          | inl y ↦
              elim (Bool-cases
                (is_fresh library clock p (p.state.load w) (clock.instant_now w).0)) [
                  | inl fresh ↦
                      subst (λ x. Leads s returned none x)
                        (ap (λ r. r.1) (sym (unchanged observed w true y fresh)))
                        (timed s (locked observed) (some t) w at (λ u there reads.
                          moved u _ _ leaving there.phase_at
                            (rechecks u observed false (
                              test u observed (p.state.load w) true true
                                (there.held_at ∙ quiet.load-instant_now w) y
                                (fresh_at u (p.state.load w) _ true
                                  (there.held_at ∙ quiet.load-instant_now w) reads fresh)))
                            (λ v kept stands. left v w' (
                              standing v _ leaving kept stands there.holder_at there.held_at
                                there.now_at))))
                  | inr stale ↦
                      subst (λ x. Leads s returned none x)
                        (ap (λ r. r.1) (sym (unchanged observed w false y stale)))
                        (timed s (locked observed) (some t) w at (λ u there reads.
                          moved u _ _ fetching there.phase_at
                            (rechecks u observed true (
                              test u observed (p.state.load w) true false
                                (there.held_at ∙ quiet.load-instant_now w) y
                                (fresh_at u (p.state.load w) _ false
                                  (there.held_at ∙ quiet.load-instant_now w) reads stale)))
                            (λ v kept stands.
                              fetching-Leads v (p.state.load w) w'
                                (standing v _ fetching kept stands there.holder_at there.held_at
                                  there.now_at)
                                (sym (quiet.load-instant_now w)))))
                ]
        ]

    -- what a call makes of its first reading of the clock
    begun :
        (w : W) (b : Bool)
        → is_fresh library clock p (p.state.load w) (clock.instant_now w).0 ≡ b
        → (let w' = (clock.instant_now w).1 in
            refresh library clock p w ≡ (
              if b
              then (ok tt, w')
              else refresh_locked library clock p (p.state.load w) (p.wait w')))
    unfolding refresh
    begun w true h = rw (h, refresh) refl
    begun w false h = rw (h, refresh) refl

    waiting-Leads :
        (s : System library clock p) (observed : Snapshot Metadata Client) (w : W)
        → IsAt s (waiting observed) none w
        → Leads s returned none (refresh_locked library clock p observed (p.wait w)).1
    waiting-Leads s observed w at =
        moved s _ _ (locked observed) at.phase_at (lock at.holder_at) (λ v kept stands.
          locked-Leads v observed (p.wait w) (
            standing v _ (locked observed) kept stands refl (at.held_at ∙ sym (quiet.load-wait w))
              (omega (arith, at.now_at, quiet.time-wait w))))

    looked-Leads :
        (s : System library clock p) (w : W)
        → IsAt s (looked (p.state.load w)) none w
        → Leads s returned none (refresh library clock p w).1
    looked-Leads s w at =
        let w' = (clock.instant_now w).1 in
        let observed = p.state.load w in
        elim (Bool-cases (is_fresh library clock p observed (clock.instant_now w).0)) [
          | inl fresh ↦
              subst (λ x. Leads s returned none x) (ap (λ r. r.1) (sym (begun w true fresh)))
                (timed s _ none w at (λ u there reads.
                  moved u _ _ returned there.phase_at
                    (ages u observed true (ap (is_fresh library clock p observed) reads ∙ fresh))
                    (λ v kept stands. (
                      v,
                      here,
                      standing v _ returned kept stands there.holder_at there.held_at there.now_at,
                    ))))
          | inr stale ↦
              subst (λ x. Leads s returned none x) (ap (λ r. r.1) (sym (begun w false stale)))
                (timed s _ none w at (λ u there reads.
                  moved u _ _ (waiting observed) there.phase_at
                    (ages u observed false (ap (is_fresh library clock p observed) reads ∙ stale))
                    (λ v kept stands. waiting-Leads v observed w' (
                      standing v _ (waiting observed) kept stands there.holder_at there.held_at
                        there.now_at))))
        ]

  -- A call of `refresh` that meets no other is a run of the steps: from where the call has not begun,
  -- the lock is free, and what is shared is the snapshot of the world, steps lead to where the call
  -- has returned, the lock is free, and what is shared is the snapshot of the world that the call
  -- leaves, whether its discovery succeeds, fails or is not needed.
  pub refresh-Leads :
      (time : W → ℕ) (quiet : IsQuiet time) (t : ℕ) (s : System library clock p) (w : W)
      → IsAt time quiet t s idle none w
      → Leads time quiet t s returned none (refresh library clock p w).1
  refresh-Leads time quiet t s w at =
      moved time quiet t s _ _ (looked s.shared.held) at.phase_at look (λ v kept stands.
        looked-Leads time quiet t v w (
          standing time quiet t v _ (looked (p.state.load w)) kept (stands ∙ ap looked at.held_at)
            at.holder_at at.held_at at.now_at))
