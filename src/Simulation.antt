-- ===== src/Simulation.antt =====
-- scripts/qwen/cache_simulation.py: expert-cache simulation on a fixed order of accesses.
pub mod Clock
pub mod Segmented
pub mod Belady
pub mod Counts
pub mod Curve
pub mod Swept
mod CurveTests
