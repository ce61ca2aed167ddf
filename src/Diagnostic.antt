-- ===== src/Diagnostic.antt =====
-- The request diagnostic: scripts/qwen/diagnose_decode_startup.py and request_diagnostic_memory.py.
pub mod Steps
pub mod Observe
pub mod Request
pub mod Memory
pub mod Ordered
pub mod Keeps
pub mod Limits
pub mod Accounts
mod Tests
