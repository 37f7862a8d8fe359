-- ===== src/Lib.antt =====
-- SonicEdge, a bot that watches a chain's mempool for liquidity that is added to a pair, and buys
-- the new token through an executor contract. This is its verification: the program's parts as
-- functions and state, and what holds of them.
--
-- The parts and how they meet. `Bot::run` (crates/bot) receives transaction hashes from the
-- streams of crates/chain. `handle_hash` asks the dedupe cache (crates/core), fetches the
-- transaction (crates/chain), decodes the call to a router (crates/dex), looks up the pair in the
-- pair cache, which asks the factories (crates/dex), asks the risk engine (crates/risk), and
-- builds and sends a purchase (crates/executor). bins/sniper is the command line: `run` makes a
-- bot of a configuration and runs it, the other commands print.
--
-- Which file models what:
--   Base            shared names; lists, tests on numbers, association lists, machine words
--   Exec            Rust's Result with panics, methods that change a state, rules for invariants
--                   (Exec/Ensures) and for counts that methods add to (Exec/Costs)
--   Lru             the interface of the `lru` crate's cache, and an instance of it (Lru/Listed)
--   Core/Types      crates/core/src/types.rs: MempoolTx, LiquidityCandidate; words and requests
--   Core/Env        the clock (now_ms of crates/core/src/utils.rs) and the node, as numbered questions
--   Core/Config     crates/core/src/config.rs: what is configured, and the defaults
--   Core/Parse      crates/core/src/utils.rs: parse_address, parse_u256_decimal, parse_b256
--   Core/Dedupe     crates/core/src/dedupe.rs: new, check_and_update
--   Core/Metrics    crates/core/src/metrics.rs: Metrics, over the interface of the `prometheus` crate
--   Dex/Pair        crates/dex/src/pair.rs: queries to factories and pairs, CREATE2 addresses
--   Dex/PairCache   crates/dex/src/pair_cache.rs: keys, entries, get_cached, insert_cached
--   Dex/Resolve     crates/dex/src/pair_cache.rs: resolve, resolve_with_create2, code hashes
--   Dex/Uncached    what a resolution answers without caches, at a node that does not change
--   Dex/Decoder     crates/dex/src/decoder.rs and abi.rs: decode_router_calldata, the conversions
--   Executor/*      crates/executor/src: fees.rs (Fees), nonce.rs (Nonce), tx_builder.rs (TxBuilder)
--   Risk            crates/risk/src: RiskDecision, assess
--   Chain/*         crates/chain/src: client.rs (Client), metrics.rs (Metrics), fetcher.rs (Fetcher),
--                   channel.rs (Channel), reconnect.rs and the waits of pending.rs
--                   and heads.rs (Reconnect), the sending loops of the streams (Streams),
--                   the tasks of pending.rs, heads.rs and txpool.rs (Task)
--   Bot             crates/bot/src/orchestrator.rs: the state and detect_liquidity_add
--   Bot/Handle      crates/bot/src/orchestrator.rs: handle_hash and what it calls, the loop of run
--   Bot/Terms       crates/bot/src/orchestrator.rs: what a purchase says, read back from its calldata
--   Bot/Setup       crates/bot/src/orchestrator.rs: Bot::new
--   Bot/System      crates/bot/src/orchestrator.rs: run, with the tasks that it spawns
--   Bot/Metrics     crates/bot/src/metrics.rs: BotMetrics::new, and the metrics server (Server)
--   Bot/State       crates/bot/src/state.rs
--   App             bins/sniper/src/main.rs: the commands and what they print, and main (Command)
--   Tests/*         a small concrete world and the program run in it
-- The children of a module hold what is shown of it.
--
-- Conventions. Addresses, hashes and U256 words are the numbers that their bytes spell, bytes are
-- a list of numbers, and machine words wrap or saturate where the source's operations do. A method
-- is a function from the state to a result and the state it leaves, which comes back beside an
-- error or a panic too. What lies outside the repository is a parameter: the `lru` crate's cache,
-- the code that `sol!` generates, keccak256 and create2, the conversions of texts, tokio's
-- channel, the metrics' registry, the providers of the node's addresses, the files and formats of
-- the commands, the clock and the node. Each question to the clock or the node has a number, and
-- the answers are arbitrary functions of the number and the question. Loops run over lists, by
-- recursion on them: the factories of a resolution, the deliveries of a run. So every function is
-- total, and the one fuel is that of printing a number: twenty digits, which every 64-bit number
-- has room in. The two ends of a channel are a step relation, in which the steps of overlapping
-- calls alternate in any way; a bound of 2^64 steps stands where the count must not wrap. The bot
-- with its tasks is a step relation too: the loop and the tasks go on in any order, a task from
-- one await to the next in one step, and what the loop received is handled in one step.
--
-- Not modelled: logging and the setting up of it; the parsing of the command line and of the
-- configuration file; what the metrics count, except the items of a channel and the duplicates
-- (their names and their making are modelled); the times of the polling of the pool, which may be
-- any; the Solidity contract; the Rust tests.
pub mod Base
pub mod Exec
pub mod Lru
pub mod Core
pub mod Dex
pub mod Executor
pub mod Risk
pub mod Chain
pub mod Bot
pub mod App
pub mod Tests
