-- ===== src/Bot/Setup.antt =====
-- crates/bot/src/orchestrator.rs: `Bot::new`.
pub mod Ready
use sonic_edge.Base.{
  ℕ, Bool, Option, none, some, List, [], ◌∷◌, bytes_eq, if◌then◌else◌, ℕ_discrete,
}
use sonic_edge.Base.Assoc.{insert}
use sonic_edge.Exec.{Result, ok, and_then}
use sonic_edge.Core.Types.{Address, B256, U256, address_zero}
use sonic_edge.Core.Config.{
  Text, text, AppConfig, ExecutorConfig, RouterFactoryConfig, FactoryPairCodeHashConfig,
}
use sonic_edge.Core.Parse.{
  Conversions, trim_start_matches, parse_address, parse_u256_decimal, parse_b256,
}
use sonic_edge.Core.Dedupe
use sonic_edge.Dex.PairCache
use sonic_edge.Executor.Fees.{GasMode}
use sonic_edge.Executor.Nonce
use sonic_edge.Executor.TxBuilder
use sonic_edge.Executor.TxBuilder.{ExecutorTxBuilder}
use sonic_edge.Core.Metrics.{Prometheus}
use sonic_edge.Chain.Client.{connect}
use sonic_edge.Bot.{World, Bot}
use sonic_edge.Bot.Metrics

-- What `Bot::new` takes from outside: the providers of connections to the node, the environment's
-- variables, the address of a private key, and prometheus.
pub record Host : Type 1 where
  pub provider : Text → Result (Unit {0})
  pub var : Text → Option Text
  pub signer_address : B256 → Result Address
  pub prometheus : Prometheus

-- `collect` into a `Result`: the first error is the answer.
unfoldable pub collect : {A B : Type 0} → (A → Result B) → List A → Result (List B)
collect f [] = ok []
collect f (x ∷ xs) = and_then (f x) λ y. and_then (collect f xs) λ ys. ok (y ∷ ys)

abbrev legacy : Text
legacy = text "legacy"

unfoldable pub gas_mode : Text → GasMode
gas_mode mode = if bytes_eq mode legacy then GasMode.legacy else GasMode.eip1559

module _ (conv : Conversions) where
  -- The loops over the entries of a map: a later entry of the same key replaces the earlier one.
  unfoldable pub router_factories :
      List (Address × Address) → List RouterFactoryConfig → Result (List (Address × Address))
  router_factories found [] = ok found
  router_factories found (entry ∷ rest) = and_then (parse_address conv entry.router) λ router.
      and_then (parse_address conv entry.factory)
        λ factory. router_factories (insert ℕ_discrete router factory found) rest

  unfoldable pub pair_code_hashes :
      List (Address × B256) → List FactoryPairCodeHashConfig → Result (List (Address × B256))
  pair_code_hashes found [] = ok found
  pair_code_hashes found (entry ∷ rest) = and_then (parse_address conv entry.factory) λ factory.
      and_then (parse_b256 conv entry.pair_code_hash)
        λ code_hash. pair_code_hashes (insert ℕ_discrete factory code_hash found) rest

module _ (conv : Conversions) (host : Host) where
  -- Without the key's variable the owner is the zero address.
  unfoldable pub owner : ExecutorConfig → Result Address
  owner cfg = elim (host.var cfg.owner_private_key_env) [
    | some pk ↦ and_then (conv.b256_from_str (trim_start_matches pk)) λ key. host.signer_address key
    | none ↦ ok address_zero
  ]

  unfoldable pub tx_builder : AppConfig → Result ExecutorTxBuilder
  tx_builder cfg = and_then (owner cfg.executor) λ owner_address.
      and_then (parse_address conv cfg.executor.executor_contract) λ contract. ok (
        TxBuilder.new contract owner_address cfg.chain.chain_id (record {
          gas_mode = gas_mode cfg.executor.gas_mode;
          max_fee_gwei = cfg.executor.max_fee_gwei;
          max_priority_gwei = cfg.executor.max_priority_gwei;
        }))

-- A metrics server that does not start is only logged.
unfoldable pub metrics : Host → Bool → Result (Option ℕ)
metrics host enabled =
    if enabled
    then and_then (Metrics.new host.prometheus) (λ m. ok (some m.dedup_hits))
    else ok none

module _ (w : World) where
  -- The bot of the parsed parts. The nonces start at zero.
  unfoldable pub assembled :
      AppConfig
      → List Address
      → List Address
      → List (Address × Address)
      → List (Address × B256)
      → List Address
      → ExecutorTxBuilder
      → U256
      → Option ℕ
      → Bot w
  assembled cfg routers factories mapped hashes base_tokens builder least hits = record {
    allow_execution_without_pair = cfg.dex.allow_execution_without_pair;
    deadline_secs = cfg.dex.deadline_secs;
    tx_fetch_timeout_ms = cfg.mempool.tx_fetch_timeout_ms;
    routers = routers;
    router_factories = mapped;
    factories = factories;
    base_tokens = base_tokens;
    risk = cfg.risk;
    pair_cache =
        PairCache.new w.pair_lru cfg.dex.pair_cache_capacity cfg.dex.pair_cache_ttl_ms
          cfg.dex.pair_cache_negative_ttl_ms hashes;
    dedupe = Dedupe.new w.dedupe_lru cfg.mempool.dedup_capacity cfg.mempool.dedup_ttl_ms;
    dedup_hits = hits;
    tx_builder = builder;
    nonce = Nonce.new 0;
    min_base_amount = least;
    asked = 0;
    sent = [];
  }

module _ (conv : Conversions) (host : Host) (w : World) where
  -- Parsed in this order; the first error is the answer.
  unfoldable pub new : AppConfig → Result (Bot w)
  new cfg = and_then (connect host.provider cfg.chain) λ chain.
      and_then (collect (parse_address conv) cfg.dex.routers) λ routers.
        and_then (collect (parse_address conv) cfg.dex.factories) λ factories.
          and_then (router_factories conv [] cfg.dex.router_factories) λ mapped.
            and_then (pair_code_hashes conv [] cfg.dex.factory_pair_code_hashes) λ hashes.
              and_then (collect (parse_address conv) cfg.dex.base_tokens) λ base_tokens.
                and_then (tx_builder conv host cfg) λ builder.
                  and_then (parse_u256_decimal conv cfg.dex.min_base_amount) λ least.
                    and_then (metrics host cfg.observability.metrics_enabled) λ hits. ok (
                      assembled w cfg routers factories mapped hashes base_tokens builder least
                        hits)
