-- ===== src/Dex.antt =====
-- crates/dex: pair lookups and CREATE2 derivation, the pair cache and the calldata decoder.
pub mod Pair
pub mod PairCache
pub mod Resolve
pub mod Uncached
pub mod Decoder
