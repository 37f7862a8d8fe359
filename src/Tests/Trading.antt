-- ===== src/Tests/Trading.antt =====
-- The bot at concrete inputs.
use sonic_edge.Base.{
  ◌+◌, ◌/◌, ◌%◌, ◌^◌, ◌≡◌, ◌↔◌, refl, inl, false, Option, none, some, List, [], ◌∷◌, arith, map,
  All, length, ℕ_discrete, lookup, bytes_eq, contains,
}
use sonic_edge.Exec.{ok, err, timeout_error, abi_error}
use sonic_edge.Core.Types.{Address, LiquidityCandidate, TransactionRequest}
use sonic_edge.Dex.Decoder.{RouterCall, v2_of_call, decode_router_calldata}
use sonic_edge.Executor.Fees.{apply}
use sonic_edge.Executor.Nonce.{count_from}
use sonic_edge.Executor.TxBuilder.{build_buy_v2, request}
use sonic_edge.Bot.{Bot, detect_liquidity_add}
use sonic_edge.Bot.Detect.{Detects, here, later, detect_liquidity_add_iff}
use sonic_edge.Bot.Handle.{
  Delivery, handle_hash, run, query, check_hash, on_checked, on_fetched, on_candidate, act_on,
  judge, execute_candidate, buy, take_nonce, send, read, count_hit, resolve_candidate_pair,
  with_cache,
}
use sonic_edge.Base.Words.{saturating_add}
use sonic_edge.Base.Assoc.{remove}
use sonic_edge.Exec.{attempt, ◌>>=◌}
use sonic_edge.Core.Env.{ask, now_ms}
use sonic_edge.Core.Dedupe.{check_and_update}
use sonic_edge.Dex.Pair.{get_pair_address, get_pair_tokens}
use sonic_edge.Dex.PairCache.{get_cached, insert_cached}
use sonic_edge.Dex.Resolve
use sonic_edge.Dex.Resolve.{resolve, resolve_with_now, resolve_factory, cached, remember}
use sonic_edge.Executor.Nonce.{next_nonce}
use sonic_edge.Risk.{assess, pass}
use sonic_edge.Chain.Fetcher.{fetch, map_tx}
use sonic_edge.Bot.Ledger.{IsPurchase, run-IsPurchase, run-nonces}
use sonic_edge.Bot.Failures.{
  clock, answered, after_fetch, received, run-fetch_failure, run-decode_failure,
}
use sonic_edge.Bot.Terms.{IsBuy}
use sonic_edge.Bot.Purchase.{handle_hash-buys}
use sonic_edge.Tests.Codecs.{an_executor_abi, an_executor_codec, calldata}
use sonic_edge.Tests.Outside.{an_add, a_tx, an_env, a_world}
use sonic_edge.Tests.Building.{a_builder, a_builder-IsWord}

-- A bot that watches router 70 for adds of at least 100 of token 30.
abbrev pub a_bot : Bot a_world
a_bot = record {
  allow_execution_without_pair = false;
  deadline_secs = 30;
  tx_fetch_timeout_ms = 200;
  routers = 70 ∷ [];
  router_factories = (70, 90) ∷ [];
  factories = 90 ∷ [];
  base_tokens = 30 ∷ [];
  risk = record { sellability_amount_base = "0"; max_tax_bps = 0; erc20_call_timeout_ms = 0 };
  pair_cache = record {
    positive_ttl_ms = 5000;
    negative_ttl_ms = 300;
    entries = record { items = []; capacity = 2 };
    pair_code_hashes = [];
  };
  dedupe = record { ttl_ms = 100; cache = record { items = []; capacity = 2 } };
  dedup_hits = some 0;
  tx_builder = a_builder;
  nonce = record { next = 0 };
  min_base_amount = 100;
  asked = 0;
  sent = [];
}

abbrev pub deliveries : List Delivery
deliveries = Delivery.head 3 ∷ Delivery.pending 400 ∷ Delivery.txpool 400 ∷ []

run-IsPurchase_example : All (IsPurchase a_bot) (run deliveries a_bot).1.sent
run-IsPurchase_example = run-IsPurchase a_bot deliveries refl refl

-- One transaction, for the two deliveries of its hash.
pub sent_run : length (run deliveries a_bot).1.sent ≡ 1
unfolding run handle_hash query check_hash check_and_update saturating_add lookup remove ℕ_discrete
    on_checked on_fetched on_candidate act_on judge execute_candidate buy take_nonce next_nonce send
    read fetch ask now_ms detect_liquidity_add bytes_eq decode_router_calldata
    resolve_candidate_pair with_cache resolve resolve_with_now resolve_factory cached get_cached
    Resolve.query attempt get_pair_address get_pair_tokens remember insert_cached build_buy_v2
    request apply assess pass ◌>>=◌ map_tx contains v2_of_call count_hit
sent_run = refl

run-nonces_example :
    map (λ tx. tx.nonce) (run deliveries a_bot).1.sent
    ≡ map some (count_from (length (run deliveries a_bot).1.sent) 0)
run-nonces_example = run-nonces a_bot deliveries refl refl (rw sent_run (omega arith))

-- Nine questions: the clock, the fetch, the clock; the clock, the factory and the pair twice for
-- the resolution; the clock and the sending.
asked_run : (handle_hash 400 a_bot).1.asked ≡ 9
unfolding handle_hash query check_hash check_and_update saturating_add lookup remove ℕ_discrete
    on_checked on_fetched on_candidate act_on judge execute_candidate buy take_nonce next_nonce send
    read fetch ask now_ms detect_liquidity_add bytes_eq decode_router_calldata
    resolve_candidate_pair with_cache resolve resolve_with_now resolve_factory cached get_cached
    Resolve.query attempt get_pair_address get_pair_tokens remember insert_cached build_buy_v2
    request apply assess pass ◌>>=◌ map_tx contains v2_of_call
asked_run = refl

run-fetch_failure_example :
    run (Delivery.pending 402 ∷ deliveries) a_bot ≡ (err timeout_error, after_fetch a_bot 402 2)
unfolding check_and_update lookup ℕ_discrete
run-fetch_failure_example = run-fetch_failure a_bot 402 deliveries timeout_error refl refl

run-decode_failure_example :
    run (Delivery.pending 401 ∷ deliveries) a_bot ≡ (err abi_error, answered a_bot 401)
unfolding check_and_update lookup ℕ_discrete bytes_eq decode_router_calldata
run-decode_failure_example =
    run-decode_failure a_bot 401 deliveries (a_tx (1 ∷ 1 ∷ 1 ∷ 1 ∷ [])) 70 abi_error refl refl refl
      (inl refl) refl

abbrev a_candidate : Option Address → LiquidityCandidate
a_candidate pair = record {
  token = 50;
  base = 30;
  router = 70;
  factory = some 90;
  pair = pair;
  stable = none;
  add_liq_tx_hash = 400;
  first_seen_ms = 1002;
  implied_liquidity = 500;
}

detects : Detects (answered a_bot 400) (received a_bot (a_tx (calldata an_add))) (a_candidate none)
unfolding bytes_eq decode_router_calldata v2_of_call map_tx lookup ℕ_discrete
detects = record {
  to = 70;
  call = RouterCall.add_liquidity (v2_of_call an_add);
  leg = (30, 50, 500);
  receiver = refl;
  watched = inl refl;
  decoded = refl;
  based = later (λ h. ground arith) (here (inl refl));
  enough = omega arith;
  result = refl;
}

detect_liquidity_add_iff_example :
    (detect_liquidity_add a_bot (received a_bot (a_tx (calldata an_add)))
      ≡ ok (some (a_candidate none)))
    ↔ Detects a_bot (received a_bot (a_tx (calldata an_add))) (a_candidate none)
detect_liquidity_add_iff_example =
    detect_liquidity_add_iff a_bot (received a_bot (a_tx (calldata an_add))) (a_candidate none)

resolved_run :
    (resolve_candidate_pair (a_candidate none) (answered a_bot 400)).0 ≡ ok (a_candidate (some 110))
unfolding resolve_candidate_pair read with_cache resolve resolve_with_now resolve_factory cached
    get_cached lookup Resolve.query attempt get_pair_address get_pair_tokens ask now_ms remember
    ◌>>=◌
resolved_run = refl

-- The purchase is made a second after the start, and the resolution has asked four times.
timed_run : (resolve_candidate_pair (a_candidate none) (answered a_bot 400)).1.asked ≡ 7
unfolding resolve_candidate_pair read with_cache resolve resolve_with_now resolve_factory cached
    get_cached lookup Resolve.query attempt get_pair_address get_pair_tokens ask now_ms remember
    ◌>>=◌
timed_run = refl

handle_hash-buys_example :
    let now =
      clock an_env (resolve_candidate_pair (a_candidate none) (answered a_bot 400)).1.asked in
    (bought : TransactionRequest) × IsBuy an_executor_abi an_executor_codec a_builder
      (a_candidate none)
      (some 110)
      ((now / 1000 + 30) % 2 ^ 64)
      0
      bought
    × ((handle_hash 400 a_bot).1.sent ≡ bought ∷ [])
unfolding check_and_update lookup ℕ_discrete
handle_hash-buys_example =
    handle_hash-buys a_bot 400 (a_tx (calldata an_add)) (a_candidate none) (a_candidate (some 110))
      an_executor_codec a_builder-IsWord refl refl detects resolved_run
      (record { based = λ e. ground arith; owned = λ e. ground arith; guarded = inl refl })
