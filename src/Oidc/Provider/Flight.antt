-- ===== src/Oidc/Provider/Flight.antt =====
-- src/oidc/provider.rs: calls of `refresh` that run side by side, interleaved in any order. A task is
-- one call, and its phase is where it stands; each step is one access to what the tasks share.
pub mod Once
pub mod Served
pub mod Alone
use authn_kit.Prelude.{
  ℕ, suc, ◌+◌, Bool, true, false, not, ◌&&◌, Option, none, some, List, ◌∷◌, ◌==◌, ◌≡◌,
  if◌then◌else◌,
}
use authn_kit.Effect.{Clock}
use authn_kit.Oidc.Provider.{Library, ProviderState, Snapshot, OidcProvider, is_fresh, build_client}

pub data Phase (Metadata Client : Type 0) : Type 0 where
  idle : Phase Metadata Client
  looked : Snapshot Metadata Client → Phase Metadata Client
  waiting : Snapshot Metadata Client → Phase Metadata Client
  locked : Snapshot Metadata Client → Phase Metadata Client
  fetching : Phase Metadata Client
  storing : ProviderState Metadata Client → Phase Metadata Client
  leaving : Phase Metadata Client
  returned : Phase Metadata Client

-- What the tasks share: the snapshot, the task that holds `refresh_lock`, and the clock. `history` are
-- the times at which the snapshots before this one were fetched, the last one first.
pub record Shared (Metadata Client : Type 0) : Type 0 where
  pub held : Snapshot Metadata Client
  pub holder : Option ℕ
  pub now : ℕ
  pub history : List ℕ

-- the clock, later
abbrev pub after : {Metadata Client : Type 0} → ℕ → Shared Metadata Client → Shared Metadata Client
after n m = record m { now = m.now + n }

module _ {Metadata Client IdToken Value W : Type 0}
    (library : Library Metadata Client IdToken Value W) (clock : Clock W)
    (p : OidcProvider Metadata Client W) where
  abbrev pub stored :
      Shared Metadata Client → ProviderState Metadata Client → Shared Metadata Client
  stored m state = record m {
    held = record { address = suc m.held.address; state = state };
    history = m.held.state.fetched_at ∷ m.history;
  }

  -- what the metadata that a discovery answers become at the time `now`
  abbrev pub fetched : Metadata → ℕ → ProviderState Metadata Client
  fetched metadata now = record {
    metadata = metadata;
    client =
        build_client library clock metadata p.config.client_id p.config.client_secret
          p.config.redirect_url;
    fetched_at = now;
  }

  -- One step of the task `t`: from what is shared and its phase, to both after it. A task may be
  -- dropped where it awaits, which gives back the lock.
  pub data Move (t : ℕ)
      : Shared Metadata Client
        → Phase Metadata Client
        → Shared Metadata Client
        → Phase Metadata Client
        → Type 0 where
    look : {m : Shared Metadata Client} → Move t m idle m (looked m.held)
    age :
        {m : Shared Metadata Client} {observed : Snapshot Metadata Client}
        → Move t m
            (looked observed)
            m
            (if is_fresh library clock p observed m.now then returned else waiting observed)
    lock :
        {m : Shared Metadata Client} {observed : Snapshot Metadata Client}
        → m.holder ≡ none
        → Move t m (waiting observed) (record m { holder = some t }) (locked observed)
    drop :
        {m : Shared Metadata Client} {observed : Snapshot Metadata Client}
        → Move t m (waiting observed) m returned
    recheck :
        {m : Shared Metadata Client} {observed : Snapshot Metadata Client}
        → Move t m (locked observed) m (
            if (observed.address == m.held.address) && not (is_fresh library clock p m.held m.now)
            then fetching
            else leaving)
    fail : {m : Shared Metadata Client} → Move t m fetching m leaving
    arrive :
        {m : Shared Metadata Client} (metadata : Metadata)
        → Move t m fetching m (storing (fetched metadata m.now))
    store :
        {m : Shared Metadata Client} {state : ProviderState Metadata Client}
        → Move t m (storing state) (stored m state) leaving
    unlock : {m : Shared Metadata Client} → Move t m leaving (record m { holder = none }) returned

  pub record System : Type 0 where
    pub shared : Shared Metadata Client
    pub phase : ℕ → Phase Metadata Client

  abbrev pub update :
      (ℕ → Phase Metadata Client) → ℕ → Phase Metadata Client → ℕ → Phase Metadata Client
  update phase t q u = if u == t then q else phase u

  pub data Step (s : System) : System → Type 0 where
    pick :
        (t : ℕ) {m : Shared Metadata Client} {q : Phase Metadata Client}
        → Move t s.shared (s.phase t) m q
        → Step s (record { shared = m; phase = update s.phase t q })
    tick : (n : ℕ) → Step s (record { shared = after n s.shared; phase = s.phase })

  -- a provider that was just discovered, with no call under way
  abbrev pub discovered_at : Snapshot Metadata Client → System
  discovered_at snapshot = record {
    shared = record {
      held = snapshot;
      holder = none;
      now = snapshot.state.fetched_at;
      history = List.[];
    };
    phase = λ _. idle;
  }

  pub data Reach (snapshot : Snapshot Metadata Client) : System → Type 0 where
    start : Reach snapshot (discovered_at snapshot)
    later : {s t : System} → Reach snapshot s → Step s t → Reach snapshot t
