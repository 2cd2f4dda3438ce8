-- ===== src/Gateway.antt =====
-- The HTTP gateway: internal/gateway/httpapi.
pub mod Respond
pub mod Handler
pub mod Access
pub mod Schema
mod Tests
