-- ===== src/Trace.antt =====
-- decode of scripts/qwen/route_trace.py: the engine's trace of committed routes, line by line.
pub mod State
pub mod Events
pub mod Decode
pub mod Keeps
pub mod Committed
pub mod Checks
pub mod Steps
pub mod Commits
pub mod Report
pub mod Tests
