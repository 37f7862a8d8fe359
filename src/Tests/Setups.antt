-- ===== src/Tests/Setups.antt =====
-- `Bot::new` at a concrete configuration, and a run of the bot that it makes.
use sonic_edge.Base.{
  if◌then◌else◌, List, ◌≡◌, refl, true, false, some, [], ◌∷◌, arith, length, bytes_eq,
}
use sonic_edge.Base.Assoc.{insert, remove}
use sonic_edge.Exec.{ok, err, parse_error, ◌>>=◌}
use sonic_edge.Core.Config.{Text, text, AppConfig}
use sonic_edge.Core.Parse.{Conversions, trim_start_matches, parse_address, parse_u256_decimal}
use sonic_edge.Core.Dedupe
use sonic_edge.Dex.PairCache
use sonic_edge.Executor.Nonce
use sonic_edge.Executor.TxBuilder
use sonic_edge.Executor.Nonce.{count_from}
use sonic_edge.Core.Metrics.{Prometheus, is_metric_name, has_name}
use sonic_edge.Chain.Client.{connect}
use sonic_edge.Chain.Metrics as ChannelMetrics
use sonic_edge.Chain.Metrics.{depth_name, dropped_name}
use sonic_edge.Bot.Metrics
use sonic_edge.Bot.Metrics.{BotMetrics, fill, dedup_hits_name, names_of, new-ok}
use sonic_edge.Bot.Metrics.Server.{response, read_response, read_response-response}
use sonic_edge.Bot.Setup.{
  Host, collect, gas_mode, router_factories, pair_code_hashes, owner, tx_builder, metrics,
  assembled, new,
}
use sonic_edge.Bot.Setup.Ready.{IsReady, new-IsReady}
use sonic_edge.Tests.Codecs.{nth}
use sonic_edge.Tests.Outside.{a_world}
use sonic_edge.Tests.Trading.{a_bot}

-- A text is read as its first character's number.
abbrev pub conversions : Conversions
conversions = record {
  address_from_str = λ s. ok (nth 0 s);
  u256_from_str_radix = λ s radix. ok (nth 0 s);
  b256_from_str = λ s. ok (nth 0 s);
}

-- Names are kept in a list.
abbrev pub a_prometheus : Prometheus
a_prometheus = record {
  Registry = List Text;
  new_registry = [];
  with_opts = λ name. if is_metric_name name then ok tt else err parse_error;
  register =
      λ name names. if has_name name names then (err parse_error, names) else (ok tt, name ∷ names);
  encode = λ names. length names ∷ [];
  names = λ names. names;
  names-new = refl;
  with_opts_lem = λ name good. rw good refl;
  register-fresh = λ name names fresh. rw fresh refl;
  names-register = λ name names fresh. rw fresh refl;
}

abbrev pub a_host : Host
a_host = record {
  provider = λ address. ok tt;
  var = λ name. some (48 ∷ 120 ∷ 9 ∷ []);
  signer_address = λ key. ok 21;
  prometheus = a_prometheus;
}

abbrev pub a_cfg : AppConfig
a_cfg = record {
  chain = record { chain_id = 146; rpc_http = []; rpc_ws = [] };
  mempool = record {
    mode = text "ws+txpool";
    txpool_poll_ms = 1000;
    fetch_concurrency = 2;
    tx_fetch_timeout_ms = 200;
    dedup_capacity = 2;
    dedup_ttl_ms = 100;
    ws_reconnect_base_ms = 500;
    ws_reconnect_max_ms = 30000;
  };
  dex = record {
    routers = (70 ∷ []) ∷ [];
    factories = (90 ∷ []) ∷ [];
    router_factories = record { router = 70 ∷ []; factory = 90 ∷ [] } ∷ [];
    factory_pair_code_hashes = [];
    base_tokens = (30 ∷ []) ∷ [];
    pair_cache_capacity = 2;
    pair_cache_ttl_ms = 5000;
    pair_cache_negative_ttl_ms = 300;
    allow_execution_without_pair = false;
    min_base_amount = 100 ∷ [];
    max_slippage_bps = 0;
    deadline_secs = 30;
  };
  risk = record { sellability_amount_base = "0"; max_tax_bps = 0; erc20_call_timeout_ms = 0 };
  executor = record {
    owner_private_key_env = 80 ∷ 75 ∷ [];
    executor_contract = 22 ∷ [];
    gas_mode = [];
    max_fee_gwei = 50;
    max_priority_gwei = 2;
    bump_pct = 0;
    bump_interval_ms = 0;
  };
  strategy = record { take_profit_bps = 0; stop_loss_bps = 0; max_hold_secs = 0 };
  observability = record { metrics_enabled = true; metrics_bind = []; log_level = [] };
}

pub new_run : new conversions a_host a_world a_cfg ≡ ok a_bot
unfolding new connect Metrics.new fill ChannelMetrics.new depth_name dropped_name dedup_hits_name
    ◌>>=◌ collect router_factories pair_code_hashes owner tx_builder metrics insert remove
    trim_start_matches parse_address parse_u256_decimal assembled gas_mode bytes_eq Dedupe.new
    PairCache.new Nonce.new TxBuilder.new
new_run = refl

new-IsReady_example : IsReady a_cfg a_bot
new-IsReady_example = new-IsReady conversions a_host a_cfg a_bot new_run

new-ok_example :
    (m : BotMetrics a_prometheus) × (Metrics.new a_prometheus ≡ ok m)
    × (m.dedup_hits ≡ 0)
    × (m.metrics.registry
        ≡ dedup_hits_name
          ∷ names_of (text "heads") (names_of (text "txpool") (names_of (text "pending") [])))
new-ok_example = new-ok a_prometheus

read_response-response_example :
    read_response (response (text "sonic_mempool_pending_queue_depth 3"))
    ≡ some (text "sonic_mempool_pending_queue_depth 3")
read_response-response_example =
    read_response-response (text "sonic_mempool_pending_queue_depth 3") (omega arith)
