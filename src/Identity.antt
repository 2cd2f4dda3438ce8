-- ===== src/Identity.antt =====
-- The identity service: internal/identity, db/migrations/identity and pkg/auth.
pub mod Text
pub mod Token
pub mod Domain
pub mod Service
pub mod Postgres
pub mod Server
pub mod Access
pub mod Keys
mod Tests
