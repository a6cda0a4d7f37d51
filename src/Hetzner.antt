-- ===== src/Hetzner.antt =====
-- The client of the Hetzner Cloud API, internal/hetzner.
pub mod Types
pub mod Safe
pub mod Path
pub mod RetryAfter
pub mod Env
pub mod Request
pub mod Poll
pub mod Http
pub mod Client
