-- ===== src/Auth.antt =====
-- app/auth: the roles, the accounts and the sessions of the web surface.
pub mod Roles
pub mod Repository
pub mod SessionStore
pub mod Loaded
pub mod Loads
pub mod Provenance
pub mod Revocation
pub mod Staleness
pub mod Login
