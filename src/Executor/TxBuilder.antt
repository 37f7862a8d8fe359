-- ===== src/Executor/TxBuilder.antt =====
-- crates/executor/src/tx_builder.rs, and the calls of crates/executor/src/abi.rs.
pub mod Built
use sonic_edge.Base.{ℕ, Bool, Option, none, some, List}
use sonic_edge.Exec.{Result, ok, panic, and_then}
use sonic_edge.Core.Types.{Address, U256, Bytes, TransactionRequest}
use sonic_edge.Executor.Fees.{FeeStrategy, apply}

pub record BuyV2Params : Type 0 where
  pub router : Address
  pub path : List Address
  pub amount_in : U256
  pub min_amount_out : U256
  pub recipient : Address
  pub deadline : U256
  pub pair : Address
  pub min_base_reserve : ℕ
  pub min_token_reserve : ℕ
  pub max_block_number : ℕ

pub record BuySolidlyParams : Type 0 where
  pub router : Address
  pub token_in : Address
  pub token_out : Address
  pub stable : Bool
  pub amount_in : U256
  pub min_amount_out : U256
  pub recipient : Address
  pub deadline : U256
  pub pair : Address
  pub min_base_reserve : ℕ
  pub min_token_reserve : ℕ
  pub max_block_number : ℕ

pub record BuyV2Call : Type 0 where
  pub router : Address
  pub path : List Address
  pub amount_in : U256
  pub min_amount_out : U256
  pub recipient : Address
  pub deadline : U256
  pub pair : Address
  pub min_base_reserve : ℕ
  pub min_token_reserve : ℕ
  pub max_block_number : ℕ

pub record BuySolidlyCall : Type 0 where
  pub router : Address
  pub token_in : Address
  pub token_out : Address
  pub stable : Bool
  pub amount_in : U256
  pub min_amount_out : U256
  pub recipient : Address
  pub deadline : U256
  pub pair : Address
  pub min_base_reserve : ℕ
  pub min_token_reserve : ℕ
  pub max_block_number : ℕ

-- What the file takes from `alloy`: the conversion of a `u128` to a `uint112`, which panics on a
-- value that does not fit, and `abi_encode` of the two calls.
pub record ExecutorAbi : Type 0 where
  pub u112_from : ℕ → Option ℕ
  pub encode_buy_v2_call : BuyV2Call → Bytes
  pub encode_buy_solidly_call : BuySolidlyCall → Bytes

pub record ExecutorTxBuilder : Type 0 where
  pub contract : Address
  pub owner : Address
  pub chain_id : ℕ
  pub fees : FeeStrategy

unfoldable pub new : Address → Address → ℕ → FeeStrategy → ExecutorTxBuilder
new contract owner chain_id fees = record {
  contract = contract;
  owner = owner;
  chain_id = chain_id;
  fees = fees;
}

abbrev or_panic : Option ℕ → Result ℕ
or_panic none = panic
or_panic (some v) = ok v

-- The request around a call's bytes, which the two builders share, before and after the fees.
abbrev pub bare_request : ExecutorTxBuilder → Bytes → ℕ → TransactionRequest
bare_request builder input nonce = record {
  from = some builder.owner;
  to = some builder.contract;
  input = input;
  nonce = some nonce;
  chain_id = some builder.chain_id;
  max_fee_per_gas = none;
  max_priority_fee_per_gas = none;
  gas_price = none;
}

unfoldable pub request : ExecutorTxBuilder → Bytes → ℕ → TransactionRequest
request builder input nonce = apply builder.fees (bare_request builder input nonce)

module _ (abi : ExecutorAbi) where
  unfoldable pub buy_v2_call : BuyV2Params → Result BuyV2Call
  buy_v2_call p = and_then (or_panic (abi.u112_from p.min_base_reserve)) λ base.
      and_then (or_panic (abi.u112_from p.min_token_reserve)) λ token. ok (record {
        router = p.router;
        path = p.path;
        amount_in = p.amount_in;
        min_amount_out = p.min_amount_out;
        recipient = p.recipient;
        deadline = p.deadline;
        pair = p.pair;
        min_base_reserve = base;
        min_token_reserve = token;
        max_block_number = p.max_block_number;
      })

  unfoldable pub buy_solidly_call : BuySolidlyParams → Result BuySolidlyCall
  buy_solidly_call p = and_then (or_panic (abi.u112_from p.min_base_reserve)) λ base.
      and_then (or_panic (abi.u112_from p.min_token_reserve)) λ token. ok (record {
        router = p.router;
        token_in = p.token_in;
        token_out = p.token_out;
        stable = p.stable;
        amount_in = p.amount_in;
        min_amount_out = p.min_amount_out;
        recipient = p.recipient;
        deadline = p.deadline;
        pair = p.pair;
        min_base_reserve = base;
        min_token_reserve = token;
        max_block_number = p.max_block_number;
      })

  unfoldable pub build_buy_v2 : ExecutorTxBuilder → BuyV2Params → ℕ → Result TransactionRequest
  unfolding buy_v2_call request
  build_buy_v2 builder params nonce =
      and_then (buy_v2_call params) λ call. ok (request builder (abi.encode_buy_v2_call call) nonce)

  unfoldable pub build_buy_solidly :
      ExecutorTxBuilder → BuySolidlyParams → ℕ → Result TransactionRequest
  unfolding buy_solidly_call request
  build_buy_solidly builder params nonce =
      and_then (buy_solidly_call params)
        λ call. ok (request builder (abi.encode_buy_solidly_call call) nonce)

  unfoldable pub encode_buy_v2 : BuyV2Params → Result Bytes
  unfolding buy_v2_call
  encode_buy_v2 params = and_then (buy_v2_call params) λ call. ok (abi.encode_buy_v2_call call)

  unfoldable pub encode_buy_solidly : BuySolidlyParams → Result Bytes
  unfolding buy_solidly_call
  encode_buy_solidly params =
      and_then (buy_solidly_call params) λ call. ok (abi.encode_buy_solidly_call call)
