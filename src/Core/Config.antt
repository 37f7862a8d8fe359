-- ===== src/Core/Config.antt =====
-- crates/core/src/config.rs: what is configured. A text that is parsed is the list of its
-- characters' numbers.
use Prim.Native.String.{String}
use Prim.Native.Char.{code}
use sonic_edge.Base.{ℕ, Bool, Option, List, [], ◌∷◌, get_or}
use sonic_edge.Risk.{RiskConfig}

abbrev pub Text : Type 0
Text = List ℕ

-- A text of the source.
abbrev pub text : String → Text
text String.[] = []
text (String.◌∷◌ c s) = code c ∷ text s

pub record ChainConfig : Type 0 where
  pub chain_id : ℕ
  pub rpc_http : Text
  pub rpc_ws : Text

pub record MempoolConfig : Type 0 where
  pub mode : Text
  pub txpool_poll_ms : ℕ
  pub fetch_concurrency : ℕ
  pub tx_fetch_timeout_ms : ℕ
  pub dedup_capacity : ℕ
  pub dedup_ttl_ms : ℕ
  pub ws_reconnect_base_ms : ℕ
  pub ws_reconnect_max_ms : ℕ

pub record RouterFactoryConfig : Type 0 where
  pub router : Text
  pub factory : Text

pub record FactoryPairCodeHashConfig : Type 0 where
  pub factory : Text
  pub pair_code_hash : Text

pub record DexConfig : Type 0 where
  pub routers : List Text
  pub factories : List Text
  pub router_factories : List RouterFactoryConfig
  pub factory_pair_code_hashes : List FactoryPairCodeHashConfig
  pub base_tokens : List Text
  pub pair_cache_capacity : ℕ
  pub pair_cache_ttl_ms : ℕ
  pub pair_cache_negative_ttl_ms : ℕ
  pub allow_execution_without_pair : Bool
  pub min_base_amount : Text
  pub max_slippage_bps : ℕ
  pub deadline_secs : ℕ

pub record ExecutorConfig : Type 0 where
  pub owner_private_key_env : Text
  pub executor_contract : Text
  pub gas_mode : Text
  pub max_fee_gwei : ℕ
  pub max_priority_gwei : ℕ
  pub bump_pct : ℕ
  pub bump_interval_ms : ℕ

pub record StrategyConfig : Type 0 where
  pub take_profit_bps : ℕ
  pub stop_loss_bps : ℕ
  pub max_hold_secs : ℕ

pub record ObservabilityConfig : Type 0 where
  pub metrics_enabled : Bool
  pub metrics_bind : Text
  pub log_level : Text

pub record AppConfig : Type 0 where
  pub chain : ChainConfig
  pub mempool : MempoolConfig
  pub dex : DexConfig
  pub risk : RiskConfig
  pub executor : ExecutorConfig
  pub strategy : StrategyConfig
  pub observability : ObservabilityConfig

-- The values of `#[serde(default = …)]` for settings that are left out.
abbrev pub default_pair_cache_capacity : ℕ
default_pair_cache_capacity = 2048

abbrev pub default_pair_cache_ttl_ms : ℕ
default_pair_cache_ttl_ms = 300_000

abbrev pub default_pair_cache_negative_ttl_ms : ℕ
default_pair_cache_negative_ttl_ms = 15_000

abbrev pub default_dedup_capacity : ℕ
default_dedup_capacity = 100_000

abbrev pub default_dedup_ttl_ms : ℕ
default_dedup_ttl_ms = 60_000

abbrev pub default_ws_reconnect_base_ms : ℕ
default_ws_reconnect_base_ms = 500

abbrev pub default_ws_reconnect_max_ms : ℕ
default_ws_reconnect_max_ms = 30_000

abbrev pub default_log_level : Text
default_log_level = text "info"

-- The settings of the mempool as a file may give them.
pub record MempoolEntries : Type 0 where
  pub mode : Text
  pub txpool_poll_ms : ℕ
  pub fetch_concurrency : ℕ
  pub tx_fetch_timeout_ms : ℕ
  pub dedup_capacity : Option ℕ
  pub dedup_ttl_ms : Option ℕ
  pub ws_reconnect_base_ms : Option ℕ
  pub ws_reconnect_max_ms : Option ℕ

unfoldable pub mempool_of : MempoolEntries → MempoolConfig
mempool_of entries = record {
  mode = entries.mode;
  txpool_poll_ms = entries.txpool_poll_ms;
  fetch_concurrency = entries.fetch_concurrency;
  tx_fetch_timeout_ms = entries.tx_fetch_timeout_ms;
  dedup_capacity = get_or entries.dedup_capacity default_dedup_capacity;
  dedup_ttl_ms = get_or entries.dedup_ttl_ms default_dedup_ttl_ms;
  ws_reconnect_base_ms = get_or entries.ws_reconnect_base_ms default_ws_reconnect_base_ms;
  ws_reconnect_max_ms = get_or entries.ws_reconnect_max_ms default_ws_reconnect_max_ms;
}

-- The settings of the exchanges as a file may give them: a list that is left out is empty.
pub record DexEntries : Type 0 where
  pub routers : Option (List Text)
  pub factories : Option (List Text)
  pub router_factories : Option (List RouterFactoryConfig)
  pub factory_pair_code_hashes : Option (List FactoryPairCodeHashConfig)
  pub base_tokens : Option (List Text)
  pub pair_cache_capacity : Option ℕ
  pub pair_cache_ttl_ms : Option ℕ
  pub pair_cache_negative_ttl_ms : Option ℕ
  pub allow_execution_without_pair : Option Bool
  pub min_base_amount : Text
  pub max_slippage_bps : ℕ
  pub deadline_secs : ℕ

unfoldable pub dex_of : DexEntries → DexConfig
dex_of entries = record {
  routers = get_or entries.routers [];
  factories = get_or entries.factories [];
  router_factories = get_or entries.router_factories [];
  factory_pair_code_hashes = get_or entries.factory_pair_code_hashes [];
  base_tokens = get_or entries.base_tokens [];
  pair_cache_capacity = get_or entries.pair_cache_capacity default_pair_cache_capacity;
  pair_cache_ttl_ms = get_or entries.pair_cache_ttl_ms default_pair_cache_ttl_ms;
  pair_cache_negative_ttl_ms =
      get_or entries.pair_cache_negative_ttl_ms default_pair_cache_negative_ttl_ms;
  allow_execution_without_pair = get_or entries.allow_execution_without_pair Bool.false;
  min_base_amount = entries.min_base_amount;
  max_slippage_bps = entries.max_slippage_bps;
  deadline_secs = entries.deadline_secs;
}
