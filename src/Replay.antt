-- ===== src/Replay.antt =====
-- scripts/qwen/block_cache_replay.py: replay of captured acquisitions and leases.
pub mod Cache
pub mod Coverage
pub mod Events
pub mod Head
pub mod State
pub mod Layers
pub mod Snapshots
pub mod Decode
pub mod Simulate
