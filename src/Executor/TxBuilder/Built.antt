-- ===== src/Executor/TxBuilder/Built.antt =====
-- What the built transactions are.
use sonic_edge.Base.{ℕ, ◌*◌, ◌^◌, ◌<◌, ◌≡◌, refl, Option, some}
use sonic_edge.Exec.{ok}
use sonic_edge.Core.Types.{Bytes, TransactionRequest}
use sonic_edge.Executor.Fees.{apply, HasFees, SameCall, apply-SameCall, apply-HasFees}
use sonic_edge.Executor.TxBuilder.{
  BuyV2Params, BuySolidlyParams, BuyV2Call, BuySolidlyCall, ExecutorAbi, ExecutorTxBuilder,
  bare_request, request, build_buy_v2, build_buy_solidly, encode_buy_v2, encode_buy_solidly,
}

-- The transaction is the owner's call of the executor contract with these bytes and this nonce,
-- on the configured chain, with the fees of the configured mode.
pub record IsCall (builder : ExecutorTxBuilder) (input : Bytes) (nonce : ℕ)
    (tx : TransactionRequest) : Type 0 where
  pub sender : tx.from ≡ some builder.owner
  pub receiver : tx.to ≡ some builder.contract
  pub calldata : tx.input ≡ input
  pub numbered : tx.nonce ≡ some nonce
  pub chain : tx.chain_id ≡ some builder.chain_id
  pub fees_set :
      HasFees builder.fees.gas_mode
        (builder.fees.max_fee_gwei * 1_000_000_000)
        (builder.fees.max_priority_gwei * 1_000_000_000)
        tx

-- The configured fees are 64-bit.
pub record IsWord (builder : ExecutorTxBuilder) : Type 0 where
  pub fee : builder.fees.max_fee_gwei < 2 ^ 64
  pub priority : builder.fees.max_priority_gwei < 2 ^ 64

pub request-IsCall :
    (builder : ExecutorTxBuilder) (input : Bytes) (nonce : ℕ)
    → IsWord builder
    → IsCall builder input nonce (request builder input nonce)
unfolding request
request-IsCall builder input nonce w =
    let (sender, receiver, calldata, numbered, chain) = same in
    record {
      sender = sender;
      receiver = receiver;
      calldata = calldata;
      numbered = numbered;
      chain = chain;
      fees_set =
          apply-HasFees builder.fees (bare_request builder input nonce) refl refl refl w.fee
            w.priority;
    }
  where
    same :
        SameCall
          (apply builder.fees (bare_request builder input nonce))
          (bare_request builder input nonce)
    same = apply-SameCall builder.fees (bare_request builder input nonce)

-- What the conversions of `alloy` promise: a value below 2^112 keeps its value, and the calldata of a call is decoded to that call.
pub record ExecutorCodec (abi : ExecutorAbi) : Type 0 where
  pub decode_buy_v2_call : Bytes → Option BuyV2Call
  pub decode_buy_solidly_call : Bytes → Option BuySolidlyCall
  pub u112_fits : (v : ℕ) → v < 2 ^ 112 → abi.u112_from v ≡ some v
  pub decode-encode_buy_v2 :
      (c : BuyV2Call) → decode_buy_v2_call (abi.encode_buy_v2_call c) ≡ some c
  pub decode-encode_buy_solidly :
      (c : BuySolidlyCall) → decode_buy_solidly_call (abi.encode_buy_solidly_call c) ≡ some c

module _ (abi : ExecutorAbi) (codec : ExecutorCodec abi) (builder : ExecutorTxBuilder)
    (nonce : ℕ) where
  -- For 64-bit fees and reserves that fit a `uint112`, a V2 buy is built, its calldata is what
  -- `encode_buy_v2` gives and is decoded to the parameters one by one, and the rest is as
  -- configured.
  pub build_buy_v2_lem :
      (p : BuyV2Params)
      → IsWord builder
      → p.min_base_reserve < 2 ^ 112
      → p.min_token_reserve < 2 ^ 112
      → (input : Bytes) × (encode_buy_v2 abi p ≡ ok input)
        × (build_buy_v2 abi builder p nonce ≡ ok (request builder input nonce))
        × IsCall builder input nonce (request builder input nonce)
        × (codec.decode_buy_v2_call input
            ≡ some (record {
              router = p.router;
              path = p.path;
              amount_in = p.amount_in;
              min_amount_out = p.min_amount_out;
              recipient = p.recipient;
              deadline = p.deadline;
              pair = p.pair;
              min_base_reserve = p.min_base_reserve;
              min_token_reserve = p.min_token_reserve;
              max_block_number = p.max_block_number;
            }))
  unfolding encode_buy_v2 build_buy_v2
  build_buy_v2_lem p w fits0 fits1 = rw (codec.u112_fits p.min_base_reserve fits0) (
      rw (codec.u112_fits p.min_token_reserve fits1)
        (_, refl, refl, request-IsCall builder _ nonce w, codec.decode-encode_buy_v2 _))

  -- For 64-bit fees and reserves that fit a `uint112`, a Solidly buy is built, its calldata is what
  -- `encode_buy_solidly` gives and is decoded to the parameters one by one, and the rest is as
  -- configured.
  pub build_buy_solidly_lem :
      (p : BuySolidlyParams)
      → IsWord builder
      → p.min_base_reserve < 2 ^ 112
      → p.min_token_reserve < 2 ^ 112
      → (input : Bytes) × (encode_buy_solidly abi p ≡ ok input)
        × (build_buy_solidly abi builder p nonce ≡ ok (request builder input nonce))
        × IsCall builder input nonce (request builder input nonce)
        × (codec.decode_buy_solidly_call input
            ≡ some (record {
              router = p.router;
              token_in = p.token_in;
              token_out = p.token_out;
              stable = p.stable;
              amount_in = p.amount_in;
              min_amount_out = p.min_amount_out;
              recipient = p.recipient;
              deadline = p.deadline;
              pair = p.pair;
              min_base_reserve = p.min_base_reserve;
              min_token_reserve = p.min_token_reserve;
              max_block_number = p.max_block_number;
            }))
  unfolding encode_buy_solidly build_buy_solidly
  build_buy_solidly_lem p w fits0 fits1 = rw (codec.u112_fits p.min_base_reserve fits0) (
      rw (codec.u112_fits p.min_token_reserve fits1)
        (_, refl, refl, request-IsCall builder _ nonce w, codec.decode-encode_buy_solidly _))
