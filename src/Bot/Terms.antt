-- ===== src/Bot/Terms.antt =====
-- crates/bot/src/orchestrator.rs: what the transaction of a purchase says, read back from its
-- calldata.
use sonic_edge.Base.{
  ℕ, ◌≡◌, ◌∙◌, ap, sym, subst, inl, inr, Bool, Option, none, some, [], ◌∷◌, arith, get_or,
  Option-cases,
}
use sonic_edge.Exec.{ok}
use sonic_edge.Core.Types.{Address, Bytes, LiquidityCandidate, TransactionRequest}
use sonic_edge.Executor.TxBuilder.{ExecutorAbi, ExecutorTxBuilder, request}
use sonic_edge.Executor.TxBuilder.Built.{
  IsCall, IsWord, ExecutorCodec, build_buy_v2_lem, build_buy_solidly_lem,
}
use sonic_edge.Bot.Handle.{v2_params, solidly_params, buy_tx}

-- Two candidates that differ in nothing but the pair and its factory.
pub record SameTrade (c d : LiquidityCandidate) : Type 0 where
  pub token : c.token ≡ d.token
  pub base : c.base ≡ d.base
  pub router : c.router ≡ d.router
  pub stable : c.stable ≡ d.stable
  pub amount : c.implied_liquidity ≡ d.implied_liquidity

module _ (abi : ExecutorAbi) (codec : ExecutorCodec abi) (builder : ExecutorTxBuilder) where
  -- The bytes are a call that spends all of the candidate's amount of its base on its token, at its
  -- router, for the owner, by the deadline, without bounds; the pair is the zero address if it is
  -- not known.
  abbrev pub IsBuyCall : LiquidityCandidate → Option Address → ℕ → Option Bool → Bytes → Type 0
  IsBuyCall c pair deadline none input =
      codec.decode_buy_v2_call input
      ≡ some (record {
        router = c.router;
        path = c.base ∷ c.token ∷ [];
        amount_in = c.implied_liquidity;
        min_amount_out = 0;
        recipient = builder.owner;
        deadline = deadline;
        pair = get_or pair 0;
        min_base_reserve = 0;
        min_token_reserve = 0;
        max_block_number = 0;
      })
  IsBuyCall c pair deadline (some stable) input =
      codec.decode_buy_solidly_call input
      ≡ some (record {
        router = c.router;
        token_in = c.base;
        token_out = c.token;
        stable = stable;
        amount_in = c.implied_liquidity;
        min_amount_out = 0;
        recipient = builder.owner;
        deadline = deadline;
        pair = get_or pair 0;
        min_base_reserve = 0;
        min_token_reserve = 0;
        max_block_number = 0;
      })

  -- The transaction is the owner's call of the executor contract that buys the candidate's token.
  pub record IsBuy (c : LiquidityCandidate) (pair : Option Address) (deadline nonce : ℕ)
      (tx : TransactionRequest) : Type 0 where
    pub bought : IsBuyCall c pair deadline c.stable tx.input
    pub called : IsCall builder tx.input nonce tx

  called_again :
      (input : Bytes) (nonce : ℕ) (tx : TransactionRequest)
      → IsCall builder input nonce tx
      → IsCall builder tx.input nonce tx
  called_again input nonce tx h = subst (λ i. IsCall builder i nonce tx) (sym h.calldata) h

  -- A purchase is built, and buys what it is to buy.
  pub buy_tx-IsBuy :
      (c : LiquidityCandidate) (deadline nonce : ℕ)
      → IsWord builder
      → (tx : TransactionRequest) × (buy_tx abi builder c deadline nonce ≡ ok tx)
        × IsBuy c c.pair deadline nonce tx
  unfolding buy_tx
  buy_tx-IsBuy c deadline nonce small = elim (Option-cases c.stable) [
    | inl v2 ↦
        let (input, encoded, built, call, decoded) =
          build_buy_v2_lem abi codec builder nonce (v2_params builder.owner c deadline) small
            (omega arith) (omega arith) in
        let tx = request builder input nonce in
        (
          tx,
          rw v2 built,
          record {
            bought = rw v2 (ap codec.decode_buy_v2_call call.calldata ∙ decoded);
            called = called_again input nonce tx call;
          },
        )
    | inr (stable, solidly) ↦
        let (input, encoded, built, call, decoded) =
          build_buy_solidly_lem abi codec builder nonce
            (solidly_params builder.owner c stable deadline) small (omega arith) (omega arith) in
        let tx = request builder input nonce in
        (
          tx,
          rw solidly built,
          record {
            bought = rw solidly (ap codec.decode_buy_solidly_call call.calldata ∙ decoded);
            called = called_again input nonce tx call;
          },
        )
  ]

  pub SameTrade-IsBuy :
      (c d : LiquidityCandidate) (pair : Option Address) (deadline nonce : ℕ)
      (tx : TransactionRequest)
      → SameTrade c d
      → IsBuy d pair deadline nonce tx
      → IsBuy c pair deadline nonce tx
  SameTrade-IsBuy c d pair deadline nonce tx same h = record {
    bought = rw same.stable (by_kind d.stable h.bought);
    called = h.called;
  }
    where
      by_kind :
          (kind : Option Bool)
          → IsBuyCall d pair deadline kind tx.input
          → IsBuyCall c pair deadline kind tx.input
      by_kind none e = rw same.router (rw same.base (rw same.token (rw same.amount e)))
      by_kind (some stable) e = rw same.router (rw same.base (rw same.token (rw same.amount e)))
