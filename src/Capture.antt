-- ===== src/Capture.antt =====
-- `validate_capture` of scripts/qwen/capture_routes.py, with the checks of other scripts that it calls,
-- and `validate` of scripts/qwen/benchmark_exact.py.
pub mod Machine
pub mod Configuration
pub mod Requests
pub mod Validate
pub mod Numbers
pub mod Turns
pub mod History
pub mod Conversation
pub mod Phases
pub mod Transitions
pub mod Sessions
pub mod Workload
pub mod Rows
pub mod Benchmark
pub mod Exact
pub mod Signatures
mod Tests
mod PhaseTests
mod BenchmarkTests
