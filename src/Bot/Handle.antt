-- ===== src/Bot/Handle.antt =====
-- crates/bot/src/orchestrator.rs: `handle_hash` and what it calls, and the loop of `run`. What
-- is only logged is left out.
use sonic_edge.Base.{
  ℕ, suc, ◌+◌, ◌/◌, ◌%◌, ◌^◌, Bool, true, false, Option, none, some, List, [], ◌∷◌, ◌++◌, not,
  is_some, ◌==◌, ◌&&◌, ◌||◌, if◌then◌else◌, get_or,
}
use sonic_edge.Exec.{Result, ok, Exec, pure, lift, ◌>>=◌, ◌>>◌}
use sonic_edge.Core.Types.{
  Address, B256, U256, address_zero, MempoolTx, LiquidityCandidate, TransactionRequest,
}
use sonic_edge.Core.Env.{now_ms}
use sonic_edge.Core.Dedupe.{check_and_update}
use sonic_edge.Dex.PairCache.{PairMetadata}
use sonic_edge.Dex.Resolve.{Session, resolve}
use sonic_edge.Executor.Nonce.{next_nonce}
use sonic_edge.Executor.TxBuilder.{
  BuyV2Params, BuySolidlyParams, ExecutorAbi, ExecutorTxBuilder, build_buy_v2, build_buy_solidly,
}
use sonic_edge.Risk.{assess}
use sonic_edge.Chain.Fetcher.{fetch}
use sonic_edge.Bot.{World, Bot, detect_liquidity_add}

-- What a branch of the `select!` received.
pub data Delivery : Type 0 where
  pending txpool : B256 → Delivery
  head : ℕ → Delivery

abbrev pub incremented : Option ℕ → Option ℕ
incremented none = none
incremented (some n) = some (suc n)

abbrev pub with_metadata : LiquidityCandidate → Option PairMetadata → LiquidityCandidate
with_metadata candidate none = candidate
with_metadata candidate (some m) = record candidate { pair = some m.pair; factory = some m.factory }

abbrev pub v2_params : Address → LiquidityCandidate → U256 → BuyV2Params
v2_params owner candidate deadline = record {
  router = candidate.router;
  path = candidate.base ∷ candidate.token ∷ [];
  amount_in = candidate.implied_liquidity;
  min_amount_out = 0;
  recipient = owner;
  deadline = deadline;
  pair = get_or candidate.pair address_zero;
  min_base_reserve = 0;
  min_token_reserve = 0;
  max_block_number = 0;
}

abbrev pub solidly_params : Address → LiquidityCandidate → Bool → U256 → BuySolidlyParams
solidly_params owner candidate stable deadline = record {
  router = candidate.router;
  token_in = candidate.base;
  token_out = candidate.token;
  stable = stable;
  amount_in = candidate.implied_liquidity;
  min_amount_out = 0;
  recipient = owner;
  deadline = deadline;
  pair = get_or candidate.pair address_zero;
  min_base_reserve = 0;
  min_token_reserve = 0;
  max_block_number = 0;
}

-- A Solidly buy if the call said which kind of pool, and a V2 buy otherwise.
unfoldable pub buy_tx :
    ExecutorAbi → ExecutorTxBuilder → LiquidityCandidate → U256 → ℕ → Result TransactionRequest
buy_tx abi builder candidate deadline nonce = elim candidate.stable [
  | some stable ↦
      build_buy_solidly abi builder (solidly_params builder.owner candidate stable deadline) nonce
  | none ↦ build_buy_v2 abi builder (v2_params builder.owner candidate deadline) nonce
]

-- The sum of two `u64` wraps.
abbrev pub deadline_at : ℕ → ℕ → U256
deadline_at now deadline_secs = (now / 1000 + deadline_secs) % 2 ^ 64

module _ {w : World} where
  unfoldable pub read : {A : Type 0} → (Bot w → A) → Exec (Bot w) A
  read f bot = (ok (f bot), bot)

  -- A question asked from a method of the bot.
  unfoldable pub query : {A : Type 0} → Exec ℕ A → Exec (Bot w) A
  query m bot = ((m bot.asked).0, record bot { asked = (m bot.asked).1 })

  abbrev session : Bot w → Session w.pair_lru
  session bot = record { cache = bot.pair_cache; asked = bot.asked }

  -- A call of the pair cache.
  unfoldable pub with_cache : {A : Type 0} → Exec (Session w.pair_lru) A → Exec (Bot w) A
  with_cache m bot = (
    (m (session bot)).0,
    record bot { pair_cache = (m (session bot)).1.cache; asked = (m (session bot)).1.asked },
  )

  unfoldable pub check_hash : B256 → ℕ → Exec (Bot w) Bool
  check_hash hash now bot = (
    ok (check_and_update w.dedupe_lru bot.dedupe hash now).0,
    record bot { dedupe = (check_and_update w.dedupe_lru bot.dedupe hash now).1 },
  )

  unfoldable pub count_hit : Exec (Bot w) (Unit {0})
  count_hit bot = (ok tt, record bot { dedup_hits = incremented bot.dedup_hits })

  unfoldable pub take_nonce : Exec (Bot w) ℕ
  take_nonce bot = (ok (next_nonce bot.nonce).0, record bot { nonce = (next_nonce bot.nonce).1 })

  -- `TxSender::send`: the node is handed the transaction, whatever it answers.
  unfoldable pub send : TransactionRequest → Exec (Bot w) B256
  send tx bot = (
    w.env.send_transaction bot.asked tx,
    record bot { asked = suc bot.asked; sent = bot.sent ++ tx ∷ [] },
  )

  -- The factories to ask: the one of the router, or all; none if routers have factories and this
  -- one has not.
  unfoldable pub factories_for : Bot w → LiquidityCandidate → Option (List Address)
  factories_for bot candidate = elim candidate.factory [
    | some factory ↦ some (factory ∷ [])
    | none ↦ elim bot.router_factories [ [] ↦ some bot.factories | _ ∷ _ ↦ none ]
  ]

  unfoldable pub resolve_among :
      LiquidityCandidate → Option (List Address) → Exec (Bot w) LiquidityCandidate
  resolve_among candidate none = pure candidate
  resolve_among candidate (some factories) = do
    metadata ← with_cache (
        resolve w.pair_lru w.pair_abi w.hashing w.env factories candidate.base candidate.token
          candidate.stable)
    pure (with_metadata candidate metadata)

  unfoldable pub resolve_candidate_pair : LiquidityCandidate → Exec (Bot w) LiquidityCandidate
  unfolding factories_for resolve_among
  resolve_candidate_pair candidate =
      if candidate.base == address_zero || is_some candidate.pair
      then pure candidate
      else do factories ← read λ bot. factories_for bot candidate; resolve_among candidate factories

  unfoldable pub buy : LiquidityCandidate → Exec (Bot w) (Unit {0})
  unfolding buy_tx
  buy candidate = do
    nonce ← take_nonce
    now ← query (now_ms w.env)
    built ← read λ bot.
        buy_tx w.executor_abi bot.tx_builder candidate (deadline_at now bot.deadline_secs) nonce
    tx ← lift built
    send tx
    pure tt

  unfoldable pub execute_candidate : LiquidityCandidate → Exec (Bot w) (Unit {0})
  execute_candidate candidate = do
    owner ← read λ bot. bot.tx_builder.owner
    if owner == address_zero
        then pure tt
        else if candidate.base == address_zero
        then pure tt
        else buy candidate

  unfoldable pub judge : LiquidityCandidate → Exec (Bot w) (Unit {0})
  judge candidate = do
    risk ← read λ bot. bot.risk
    decision ←
        assess risk (record {
          router = candidate.router;
          base_token = candidate.base;
          token = candidate.token;
        })
    if not decision.pass then pure tt else execute_candidate candidate

  unfoldable pub act_on : LiquidityCandidate → Exec (Bot w) (Unit {0})
  act_on candidate = do
    allowed ← read λ bot. bot.allow_execution_without_pair
    if candidate.base == address_zero
        then pure tt
        else if not (is_some candidate.pair) && not allowed
        then pure tt
        else judge candidate

  unfoldable pub on_candidate : Option LiquidityCandidate → Exec (Bot w) (Unit {0})
  on_candidate none = pure tt
  on_candidate (some candidate) = do resolved ← resolve_candidate_pair candidate; act_on resolved

  unfoldable pub on_fetched : Option MempoolTx → Exec (Bot w) (Unit {0})
  on_fetched none = pure tt
  on_fetched (some tx) = do
    detected ← read λ bot. detect_liquidity_add bot tx
    candidate ← lift detected
    on_candidate candidate

  unfoldable pub on_checked : B256 → Bool → Exec (Bot w) (Unit {0})
  on_checked hash false = count_hit
  on_checked hash true = do
    timeout ← read λ bot. bot.tx_fetch_timeout_ms
    tx ← query (fetch w.env timeout hash)
    on_fetched tx

  unfoldable pub handle_hash : B256 → Exec (Bot w) (Unit {0})
  handle_hash hash = do
    now ← query (now_ms w.env)
    fresh ← check_hash hash now
    on_checked hash fresh

  -- The loop of `run` over what its channels deliver, in the order in which `select!` takes it.
  -- An error leaves the loop, and the bot with it.
  unfoldable pub run : List Delivery → Exec (Bot w) (Unit {0})
  run [] = pure tt
  run (Delivery.pending hash ∷ rest) = handle_hash hash >> run rest
  run (Delivery.txpool hash ∷ rest) = handle_hash hash >> run rest
  run (Delivery.head number ∷ rest) = run rest
