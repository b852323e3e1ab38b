-- ===== src/Lib.antt =====
-- A model of authn_kit, a crate that authenticates HTTP requests, and the theorems on it.
--
-- A gateway (gateway.rs) resolves the scope of a request, reads its credential (credential.rs, from
-- the fields that request.rs keeps), and asks a chain of authenticators (authenticator.rs) in their
-- order. An authenticator gives a verdict (outcome.rs) or an error (error.rs). The mechanisms under
-- src/mechanisms are such authenticators; they make claims (claims.rs), convert them into the
-- application's user, and keep users in a bounded cache (cache.rs). builder.rs assembles a gateway.
--
-- The files, and the code that they model (paths from the repository's root):
--   Prelude, Text, Map     what the crate uses of Rust's standard library: lists and options, `str`
--                          on code points, UTF-8, and maps as lists of pairs with distinct keys
--   Effect                 what an async call may do: a value, an `AuthError` or a panic, and a new
--                          world; shared cells and clocks are places of the world
--   Cookie, Error, Claims  src/cookie.rs, src/error.rs, src/claims.rs
--   Request, Credential    src/request.rs, src/credential.rs
--   Scope, Outcome         src/scope.rs, src/outcome.rs
--   Cache                  src/cache.rs: the operations on the state; Cache/Shared: the same behind
--                          the lock, with the readings of the clock where the code makes them
--                          (Cache/Threads: calls that come between each other, as a step relation)
--   Authenticator          src/authenticator.rs; Authenticator/Decides: the order of resolution
--   Gateway, Builder       src/gateway.rs, src/builder.rs
--   Mechanisms/ApiToken    src/mechanisms/api_token.rs
--   Mechanisms/Disabled    src/mechanisms/disabled.rs
--   Mechanisms/Bearer      src/mechanisms/bearer.rs
--   Mechanisms/Basic       src/mechanisms/basic.rs
--   Mechanisms/Session     src/mechanisms/session.rs
--   Mechanisms/Introspection  src/mechanisms/introspection.rs
--   Mechanisms/Identity    the conversion of claims into a user that the mechanisms share
--   Oidc/Config, Oidc/Claims, Oidc/Error, Oidc/Session, Oidc/Metadata  the files of these names under
--                          src/oidc
--   Oidc/Provider          src/oidc/provider.rs: discovery, refresh, the verification of ID tokens
--   Oidc/Provider/Flight   the same file: calls of `refresh` that run side by side, as a step relation
--   Oidc/Tokens            the token endpoint, as basic.rs and login.rs use it
--   Oidc/Login             src/oidc/login.rs: where a login begins, with the policy on destinations
--                          (Login/Redirect), the callback (Login/Callback), its completion
--                          (Login/Complete)
--   Env                    src/env.rs
--   Adapters               src/adapters: requests, cookies and responses of axum and actix, and the
--                          middleware of actix (Adapters/Middleware)
--   Debug                  what `{:?}` shows of the values that hold secrets, from several files
--   ActixService           examples/actix_service.rs: its user, scopes and handler; the gateway that
--                          it builds of the environment (ActixService/Wiring)
--   Tests                  the theorems applied to small concrete inputs, and runs
--
-- A function of the source has the same name here. A method `x.f(a)` is `f x a` or, where it changes
-- a builder, `f a x`; a setter that shares its name with a field begins with `with_`, the builder's
-- `with` is `add`, its `public_scope_policy` is `set_public_scope_policy`, and the `insert` of the
-- cache is `insert_entry`. `Cache.get` answers the state as well, since it stamps the entry and
-- advances the clock. A trait is a record of its methods; a type parameter `P: AuthProfile` is the
-- two types `U` and `S`, and `W` is the world. Texts are lists of code points, durations and instants
-- are numbers of nanoseconds, and secrets are their texts.
--
-- Bounds and fuel. The loop that evicts entries runs on fuel, of which it gets the number of entries,
-- and each round takes one out (Cache/Rounds). The cache's clock wraps at 2^64, and the theorems on
-- sequences of calls ask for fewer calls than that. `Instant::now() + ttl` panics where the sum
-- cannot be represented: a number of seconds below 2^63 can be. The decimal digits of a number have a
-- round of fuel for each unit of the number. Concurrent calls of `refresh` take one step for each access
-- to what they share, in any order, and any number of calls may be under way.
--
-- Parameters. Code of other crates is a parameter of what uses it: `decode` of base64, `hash` of
-- blake3, `ct_eq` of subtle (whose documented behaviour is the record IsConstantTimeEq),
-- `from_value` and `parse` of serde_json. So are the application's `try_from`, its scopes and its
-- validators, and the readings of clocks. `openidconnect` is three records: `Library` (discovery, the
-- client, ID tokens), `TokenEndpoint` and `AuthorizationEndpoint`; base64 and serde_json, where they
-- carry the protection data of a login, are `Encoding`, whose round trip is `IsFaithful`. `reqwest` is
-- `Http`, the accessors of JSON values are `Json`, `std::env::var` is a function, and the records of
-- Adapters hold what the code reads of the types of axum and actix. `Surroundings` gathers what the
-- example takes of all these, and `quoted` is the `Debug` of a `str`.
--
-- Not modelled: logging, the memory ordering of the cache's atomics, what becomes of a poisoned
-- lock; the traits by which actix and axum call the adapters; and the HTTP server of the example, of
-- which only the routes are kept. src/lib.rs and the module files declare no behaviour.
pub mod Prelude
pub mod Text
pub mod Map
pub mod Cookie
pub mod Error
pub mod Effect
pub mod Claims
pub mod Request
pub mod Credential
pub mod Scope
pub mod Outcome
pub mod Cache
pub mod Authenticator
pub mod Gateway
pub mod Builder
pub mod Mechanisms
pub mod Oidc
pub mod Env
pub mod Adapters
pub mod Debug
pub mod ActixService
mod Tests
