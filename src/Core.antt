-- ===== src/Core.antt =====
-- crates/core: the shared types, the time helper, the deduplication cache, and what the program
-- asks of the chain and of the clock.
pub mod Types
pub mod Env
pub mod Dedupe
pub mod Config
pub mod Metrics
pub mod Parse
