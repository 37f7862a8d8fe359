-- ===== src/Bot/Buying.antt =====
-- crates/bot/src/orchestrator.rs: what one purchase does to the bot.
use sonic_edge.Base.{
  ℕ, suc, ◌^◌, ◌≡◌, ◌∙◌, ap, sym, subst, arith, refl, inl, inr, Option-cases, get_or, ◌%◌, some,
  List, [], ◌∷◌, ◌++◌,
}
use sonic_edge.Exec.{Result, ok, err, panic, pure, continue, ◌>>=◌}
use sonic_edge.Core.Types.{B256, LiquidityCandidate, TransactionRequest}
use sonic_edge.Core.Env.{now_ms}
use sonic_edge.Executor.Fees.{apply-SameCall}
use sonic_edge.Executor.Nonce.{next_nonce}
use sonic_edge.Executor.TxBuilder.{
  ExecutorAbi, ExecutorTxBuilder, bare_request, request, build_buy_v2, build_buy_solidly,
}
use sonic_edge.Executor.TxBuilder.Built.{IsWord, ExecutorCodec}
use sonic_edge.Bot.{World, Bot}
use sonic_edge.Bot.Terms.{IsBuy, buy_tx-IsBuy}
use sonic_edge.Bot.Handle.{deadline_at, read, query, take_nonce, send, buy_tx, buy}

-- With reserve bounds of zero, which always fit, a purchase is always built.
built :
    (abi : ExecutorAbi) (builder : ExecutorTxBuilder) (c : LiquidityCandidate) (deadline nonce : ℕ)
    → abi.u112_from 0 ≡ some 0
    → (tx : TransactionRequest) × (buy_tx abi builder c deadline nonce ≡ ok tx)
      × (tx.nonce ≡ some nonce)
unfolding buy_tx build_buy_v2 build_buy_solidly
built abi builder c deadline nonce zero_fits = elim (Option-cases c.stable) [
  | inl v2 ↦ rw (v2, buy_tx) (rw zero_fits (_, refl, numbered _))
  | inr (stable, solidly) ↦ rw (solidly, buy_tx) (rw zero_fits (_, refl, numbered _))
]
  where
    numbered : (input : List ℕ) → (request builder input nonce).nonce ≡ some nonce
    numbered input =
        unfold request in (apply-SameCall builder.fees (bare_request builder input nonce)).3

abbrev or_else : Result TransactionRequest → TransactionRequest → TransactionRequest
or_else (ok tx) other = tx
or_else (err e) other = other
or_else panic other = other

module _ {w : World} where
  -- The deadline of a purchase that begins now, by the clock's answer to its question.
  abbrev pub deadline_now : Bot w → ℕ
  deadline_now bot = deadline_at (get_or (w.env.system_time bot.asked) 0 % 2 ^ 64) bot.deadline_secs

  -- A purchase hands the node one transaction, made with the nonce that the counter shows.
  pub buy_state :
      (bot : Bot w) (c : LiquidityCandidate)
      → w.executor_abi.u112_from 0 ≡ some 0
      → (tx : TransactionRequest) × (buy_tx w.executor_abi bot.tx_builder c
            (deadline_now bot)
            bot.nonce.next
          ≡ ok tx)
        × (tx.nonce ≡ some bot.nonce.next)
        × ((buy c bot).1 ≡ record bot {
          nonce = (next_nonce bot.nonce).1;
          asked = suc (suc bot.asked);
          sent = bot.sent ++ tx ∷ [];
        })
  unfolding buy take_nonce query now_ms read send next_nonce ◌>>=◌
  buy_state bot c zero_fits =
      let (tx, made, numbered) =
        built w.executor_abi bot.tx_builder c (deadline_now bot) bot.nonce.next zero_fits in
      (tx, made, numbered, rw made (answered _ _))
    where
      answered : (r : Result B256) (s : Bot w) → (continue r (λ _. pure {A = Unit {0}} tt) s).1 ≡ s
      answered (ok hash) s = refl
      answered (err e) s = refl
      answered panic s = refl

  -- For 64-bit fees, a purchase hands the node one transaction, which buys the candidate's token.
  pub buy-IsBuy :
      (bot : Bot w) (c : LiquidityCandidate) (codec : ExecutorCodec w.executor_abi)
      → IsWord bot.tx_builder
      → (tx : TransactionRequest) × IsBuy w.executor_abi codec bot.tx_builder c c.pair
          (deadline_now bot)
          bot.nonce.next
          tx
        × ((buy c bot).1.sent ≡ bot.sent ++ tx ∷ [])
  buy-IsBuy bot c codec small =
      let (tx, made, numbered, state) = buy_state bot c (codec.u112_fits 0 (omega arith)) in
      let (tx', made', buys) =
        buy_tx-IsBuy w.executor_abi codec bot.tx_builder c (deadline_now bot) bot.nonce.next
          small in
      let same : tx' ≡ tx = ap (λ r. or_else r tx') (sym made' ∙ made) in
      (
        tx,
        subst (IsBuy w.executor_abi codec bot.tx_builder c c.pair (deadline_now bot) bot.nonce.next)
            same buys,
        ap (λ b. b.sent) state,
      )
