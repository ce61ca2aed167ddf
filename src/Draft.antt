-- ===== src/Draft.antt =====
-- scripts/qwen/perfect_draft.py: the checks of a recorded block verification.
pub mod Work
pub mod Probe
pub mod Blocks
pub mod Memory
pub mod State
pub mod Bounds
pub mod Held
pub mod Sizes
pub mod Continuation
pub mod Compare
pub mod Execution
pub mod Observe
pub mod Covered
pub mod Continued
pub mod Parts
pub mod Joined
pub mod Greedy
pub mod Prefixes
pub mod Tests
mod Runs
