-- ===== src/Routes.antt =====
-- route_segments of scripts/qwen/cache_simulation.py: recorded routes to complete windows of layers.
pub mod Pass
pub mod Windows
pub mod Loop
pub mod Keys
pub mod Balance
pub mod Conserves
pub mod Tests
