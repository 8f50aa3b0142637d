-- ===== src/Adaptive.antt =====
-- internal/adaptive: the tier pointer, the timing mode and the timing budget of a running flow.
pub mod Pointer
pub mod Float
pub mod Parameters
pub mod Timing
pub mod Budget
pub mod Examples
