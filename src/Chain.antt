-- ===== src/Chain.antt =====
-- crates/chain: the fetcher, the channel with its count, the backoff and the sending of the streams.
pub mod Fetcher
pub mod Channel
pub mod Reconnect
pub mod Streams
pub mod Client
pub mod Task
pub mod Metrics
