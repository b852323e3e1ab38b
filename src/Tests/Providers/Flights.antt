-- ===== src/Tests/Providers/Flights.antt =====
-- The theorems on calls of `refresh` that are interleaved, at two of them.
use authn_kit.Prelude.{ℕ, none, arith, ◌+◌, ◌≤◌, ◌≡◌, refl}
use authn_kit.Text.{Text, str}
use authn_kit.Oidc.Provider.{Snapshot, is_fresh, refresh}
use authn_kit.Oidc.Provider.Flight.{
  discovered_at, idle, returned, System, Reach, start, later, pick, tick, look, age, lock, recheck,
  arrive, store, fail, unlock, fetching,
}
use authn_kit.Oidc.Provider.Flight.Once.{Spaced, Reach-single, Reach-Spaced}
use authn_kit.Oidc.Provider.Flight.Served.{Steps, IsServed, Reach-IsServed}
use authn_kit.Oidc.Provider.Flight.Alone.{IsQuiet, IsAt, Leads, refresh-Leads}
use authn_kit.Tests.Providers.{eve, site_clock, config, library, provider, under}

abbrev outset : Snapshot Text Text
outset = under (str "old")

-- a state, and how it was reached
record Run : Type 0 where
  state : System library site_clock provider
  reach : Reach library site_clock provider outset state

-- Five later both calls look at the snapshot, and the first takes the lock and finds it old.
abbrev under_way : Run
unfolding is_fresh config
under_way = record {
  state = _;
  reach =
      later
        (later
          (later
            (later (later (later (later start (tick 5)) (pick 0 look)) (pick 1 look)) (pick 0 age))
            (pick 1 age))
          (pick 0 (lock refl)))
        (pick 0 recheck);
}

-- The discovery answers, and the new snapshot is stored.
abbrev replaced : Run
unfolding is_fresh config under_way
replaced = record {
  state = _;
  reach = later (later under_way.reach (pick 0 (arrive (str "new")))) (pick 0 store);
}

-- The discovery fails, and the other call takes the lock and makes one of its own at once.
abbrev again : Run
unfolding is_fresh config under_way
again = record {
  state = _;
  reach =
      later
        (later (later (later under_way.reach (pick 0 fail)) (pick 0 unlock)) (pick 1 (lock refl)))
        (pick 1 recheck);
}

again_fetching :
    (again.state.phase 1 ≡ fetching) × (again.state.shared.now ≡ under_way.state.shared.now)
unfolding again under_way is_fresh config
again_fetching = (refl, refl)

Reach-single_example :
    ◌≡◌ {A = ℕ} 0 0
    × (under_way.state.shared.held.state.fetched_at + provider.config.min_refresh_interval
        ≤ under_way.state.shared.now)
unfolding under_way is_fresh config
Reach-single_example =
    Reach-single library site_clock provider outset under_way.state under_way.reach 0 0 refl refl

Reach-Spaced_example :
    Spaced provider.config.min_refresh_interval replaced.state.shared.held.state.fetched_at
      replaced.state.shared.history
unfolding replaced
Reach-Spaced_example = Reach-Spaced library site_clock provider outset replaced.state replaced.reach

-- The second call waits while the first one fetches.
Reach-IsServed_example :
    (v : System library site_clock provider) × Steps library site_clock provider under_way.state v
    × IsServed library site_clock provider 1 outset v
unfolding under_way is_fresh config
Reach-IsServed_example =
    Reach-IsServed library site_clock provider outset under_way.state under_way.reach 1 outset refl

quiet : IsQuiet library site_clock provider (λ w. w.time)
unfolding library
quiet = record {
  load-store = λ s w. refl;
  load-instant_now = λ w. refl;
  load-discover = λ w. refl;
  load-wait = λ w. refl;
  instant_now-time = λ w. omega arith;
  time-instant_now = λ w. omega arith;
  time-store = λ s w. omega arith;
  time-discover = λ w. omega arith;
  time-wait = λ w. omega arith;
}

begins :
    IsAt library site_clock provider
      (λ w. w.time)
      quiet
      0
      (discovered_at library site_clock provider outset)
      idle
      none
      eve
unfolding eve
begins = record { phase_at = refl; holder_at = refl; held_at = refl; now_at = omega arith }

refresh-Leads_example :
    Leads library site_clock provider
      (λ w. w.time)
      quiet
      0
      (discovered_at library site_clock provider outset)
      returned
      none
      (refresh library site_clock provider eve).1
refresh-Leads_example =
    refresh-Leads library site_clock provider (λ w. w.time) quiet 0
      (discovered_at library site_clock provider outset) eve begins
