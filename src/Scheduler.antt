-- ===== src/Scheduler.antt =====
-- engines/scheduler.py: a resolution path placed on days. `Probe` finds a day for one node, `Solve`
-- walks the path, and the other modules prove what a plan respects.
pub mod Probe
pub mod Solve
pub mod Search
pub mod Invariant
pub mod Placement
pub mod Window
pub mod Spacing
pub mod Bounds
pub mod Estimate
mod Tests
