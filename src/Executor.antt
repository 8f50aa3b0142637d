-- ===== src/Executor.antt =====
-- internal/executor: the run of a compiled plan, wave by wave.
pub mod Types
pub mod Release
pub mod Pointer
pub mod Groups
pub mod Waves
pub mod Plan
pub mod Execute
pub mod Calls
pub mod Authority
pub mod Errors
pub mod Attempts
pub mod Order
pub mod Valid
pub mod Placed
pub mod Completeness
pub mod Steps
pub mod Rounds
pub mod Overruns
mod Examples
pub mod Descent
