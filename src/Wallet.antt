-- ===== src/Wallet.antt =====
-- The wallet service: internal/wallet and db/migrations/wallet.
pub mod Domain
pub mod Ports
pub mod Service
pub mod Ledger
pub mod Tables
pub mod Postgres
pub mod Server
pub mod Contract
pub mod Guarantee
pub mod Idempotency
pub mod Concurrency
pub mod Replies
pub mod Books
pub mod Currency
pub mod Retries
pub mod Quiet
pub mod Total
mod Samples
mod Tests
mod Races
