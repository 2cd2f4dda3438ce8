-- ===== src/Transfer.antt =====
-- The transfer service: internal/transfer and db/migrations/transfer.
pub mod Domain
pub mod Ports
pub mod Service
pub mod Tables
pub mod Postgres
pub mod Cache
pub mod WalletClient
pub mod Server
pub mod Funds
mod Tests
