-- ===== src/Agent.antt =====
-- internal/agent: the endpoint agent, which answers a fixed set of read-only operations.
pub mod Types
pub mod Paths
pub mod Files
pub mod Service
pub mod Handler
pub mod Config
mod Tests
