-- ===== src/Broker.antt =====
-- internal/broker: the deterministic policy and routing kernel.
pub mod Types
pub mod Decode
pub mod Policy
pub mod Sql
pub mod Monitoring
pub mod Since
pub mod Router
mod Tests
