-- ===== src/Bot.antt =====
-- crates/bot/src/orchestrator.rs: the bot's state, the detection of liquidity adds, and the
-- handling of a transaction hash.
pub mod Detect
pub mod Handle
pub mod Kept
pub mod Terms
pub mod Buying
pub mod Ledger
pub mod Failures
pub mod Duplicates
pub mod Purchase
pub mod Bought
pub mod Meter
pub mod Questions
pub mod Checks
pub mod Once
pub mod System
pub mod State
pub mod Metrics
pub mod Setup
use sonic_edge.Base.{
  ℕ, Bool, Option, none, some, List, ltb, not, if◌then◌else◌, contains, lookup, ℕ_discrete,
}
use sonic_edge.Exec.{Result, ok, and_then}
use sonic_edge.Lru.{Lru}
use sonic_edge.Core.Types.{
  Address, B256, U256, address_zero, MempoolTx, LiquidityCandidate, TransactionRequest,
}
use sonic_edge.Core.Env.{Env}
use sonic_edge.Core.Dedupe.{DedupeCache}
use sonic_edge.Dex.Pair.{PairAbi, Hashing}
use sonic_edge.Dex.PairCache.{PairKey, PairKey-discrete, CacheEntry, PairMetadataCache}
use sonic_edge.Dex.Decoder.{RouterAbi, RouterCall, decode_router_calldata}
use sonic_edge.Executor.Nonce.{NonceManager}
use sonic_edge.Executor.TxBuilder.{ExecutorAbi, ExecutorTxBuilder}
use sonic_edge.Risk.{RiskConfig}

-- The code outside the repository that the bot runs on, and what the node and the clock answer.
pub record World : Type 1 where
  pub pair_lru : Lru PairKey CacheEntry PairKey-discrete
  pub dedupe_lru : Lru B256 ℕ ℕ_discrete
  pub pair_abi : PairAbi
  pub hashing : Hashing
  pub router_abi : RouterAbi
  pub executor_abi : ExecutorAbi
  pub env : Env

-- `Bot`, with the settings that its methods read in place of the whole configuration, the counter
-- of duplicates (none without metrics), the number of questions asked, and the transactions that
-- the node was handed, the last one last.
pub record Bot (w : World) : Type 0 where
  pub allow_execution_without_pair : Bool
  pub deadline_secs : ℕ
  pub tx_fetch_timeout_ms : ℕ
  pub routers : List Address
  pub router_factories : List (Address × Address)
  pub factories : List Address
  pub base_tokens : List Address
  pub risk : RiskConfig
  pub pair_cache : PairMetadataCache w.pair_lru
  pub dedupe : DedupeCache w.dedupe_lru
  pub dedup_hits : Option ℕ
  pub tx_builder : ExecutorTxBuilder
  pub nonce : NonceManager
  pub min_base_amount : U256
  pub asked : ℕ
  pub sent : List TransactionRequest

-- The base token, the other token and the base amount of a two-token call: the first token is
-- looked at first.
unfoldable pub base_of :
    List Address → Address → Address → U256 → U256 → Option (Address × Address × U256)
base_of base_tokens token_a token_b amount_a amount_b =
    if contains base_tokens token_a
    then some (token_a, token_b, amount_a)
    else if contains base_tokens token_b
    then some (token_b, token_a, amount_b)
    else none

module _ {w : World} where
  unfoldable pub candidate_above :
      Bot w
      → MempoolTx
      → Address
      → Option Bool
      → Address × Address × U256
      → Option LiquidityCandidate
  candidate_above bot tx to stable (base, token, base_amount) =
      if ltb base_amount bot.min_base_amount
      then none
      else some (record {
        token = token;
        base = base;
        router = to;
        factory = lookup ℕ_discrete to bot.router_factories;
        pair = none;
        stable = stable;
        add_liq_tx_hash = tx.hash;
        first_seen_ms = tx.first_seen_ms;
        implied_liquidity = base_amount;
      })

  abbrev if_based :
      Bot w
      → MempoolTx
      → Address
      → Option Bool
      → Option (Address × Address × U256)
      → Option LiquidityCandidate
  if_based bot tx to stable none = none
  if_based bot tx to stable (some legs) = candidate_above bot tx to stable legs

  unfoldable pub candidate_of : Bot w → MempoolTx → Address → RouterCall → Option LiquidityCandidate
  unfolding base_of candidate_above
  candidate_of bot tx to (RouterCall.add_liquidity add) =
      if_based bot tx to none
        (base_of bot.base_tokens add.token_a add.token_b add.amount_a_desired add.amount_b_desired)
  candidate_of bot tx to (RouterCall.add_liquidity_eth add) =
      if not (contains bot.base_tokens address_zero)
      then none
      else candidate_above bot tx to none (address_zero, add.token, add.amount_eth_min)
  candidate_of bot tx to (RouterCall.add_liquidity_solidly add) =
      if_based bot tx to (some add.stable)
        (base_of bot.base_tokens add.token_a add.token_b add.amount_a_desired add.amount_b_desired)

  abbrev of_call : Bot w → MempoolTx → Address → Option RouterCall → Option LiquidityCandidate
  of_call bot tx to none = none
  of_call bot tx to (some call) = candidate_of bot tx to call

  unfoldable pub detect_to : Bot w → MempoolTx → Option Address → Result (Option LiquidityCandidate)
  unfolding candidate_of
  detect_to bot tx none = ok none
  detect_to bot tx (some to) =
      if not (contains bot.routers to)
      then ok none
      else and_then (decode_router_calldata w.router_abi tx.input)
          (λ call. ok (of_call bot tx to call))

  unfoldable pub detect_liquidity_add : Bot w → MempoolTx → Result (Option LiquidityCandidate)
  unfolding detect_to
  detect_liquidity_add bot tx = detect_to bot tx tx.to
