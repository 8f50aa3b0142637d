-- ===== src/Actuator.antt =====
-- The node actuator (cmd/node-actuator/main.go, state.go, internal/nodeagent/signal.go): the passes
-- over the signal paths. What a path reads as, the clock and time.Parse are parameters of a pass. The
-- log lines and gates are left out.
pub mod Inspect
pub mod Scan
pub mod Watch
pub mod Once
pub mod Checked
mod Examples
