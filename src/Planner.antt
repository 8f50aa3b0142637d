-- ===== src/Planner.antt =====
-- internal/planner: the compiler of shutdown flows into waves.
pub mod Types
pub mod Durations
pub mod Tiers
pub mod Graph
pub mod Schedule
pub mod Cycles
pub mod Clearance
pub mod Compile
mod Examples
