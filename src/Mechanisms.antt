-- ===== src/Mechanisms.antt =====
-- src/mechanisms.rs: the authentication mechanisms.
pub mod Identity
pub mod Answers
pub mod ApiToken
pub mod Bearer
pub mod Basic
pub mod Session
pub mod Introspection
pub mod Disabled
