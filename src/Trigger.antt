-- ===== src/Trigger.antt =====
-- internal/trigger/evaluator.go: shutdown triggers against UPS states, with hold times.
-- An instant and a duration are numbers of nanoseconds, so that UTC() changes nothing.
pub mod Inputs
pub mod Evaluator
pub mod Outcomes
pub mod Holds
pub mod Approval
mod Examples
