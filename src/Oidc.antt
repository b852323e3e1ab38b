-- ===== src/Oidc.antt =====
-- src/oidc: OpenID Connect.
pub mod Error
pub mod Config
pub mod Claims
pub mod Provider
pub mod Metadata
pub mod Tokens
pub mod Session
pub mod Login
