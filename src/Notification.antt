-- ===== src/Notification.antt =====
-- The notification service: internal/notification and db/migrations/notification.
pub mod Service
pub mod Postgres
pub mod Consumer
pub mod Once
pub mod Commits
pub mod Stream
mod Repeats
mod Tests
