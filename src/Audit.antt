-- ===== src/Audit.antt =====
-- internal/audit: the journal that keeps audit records while the database is away, its replay, and
-- the bound on database calls.
pub mod Journal
pub mod Spool
pub mod Replay
pub mod System
mod Filed
mod Turns
mod Drains
mod Keeping
pub mod Conservation
pub mod RoundTrip
pub mod Bounds
pub mod Bounded
mod Examples
