-- ===== src/Scratch.antt =====
-- scripts/qwen/q4_scratch_lifetime.py: the checks of recorded scratch arenas.
pub mod Arena
pub mod Passes
pub mod Lifetime
pub mod Reuses
pub mod Chain
pub mod Rounds
pub mod ArmReuses
pub mod Traced
pub mod Tests
