-- ===== src/Arrivals.antt =====
-- scripts/qwen/q4_read_arrivals.py: the device counters around an arm, and the captured
-- batches.
pub mod Disk
pub mod Events
pub mod Commands
pub mod Shared
pub mod Batches
pub mod Groups
pub mod Shown
pub mod Covered
mod Captures
pub mod Distinct
pub mod Devices
pub mod Sums
pub mod Tests
