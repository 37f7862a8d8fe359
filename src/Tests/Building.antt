-- ===== src/Tests/Building.antt =====
-- The decoder, the derived addresses and the transaction builder at concrete inputs.
use sonic_edge.Base.{
  ℕ, ◌<◌, ◌≡◌, ◌≢◌, ◌↔◌, ◌⊎◌, true, false, none, some, [], ◌∷◌, arith, take, length,
}
use sonic_edge.Exec.{ok}
use sonic_edge.Core.Types.{Bytes}
use sonic_edge.Dex.Pair.{packed_v2, packed_solidly}
use sonic_edge.Dex.Pair.Packing.{SamePair, packed_v2_iff, packed_solidly_iff}
use sonic_edge.Dex.Decoder.{
  RouterCall, AddLiquidityCall, AddLiquidityEthCall, SolidlyAddLiquidityCall, v2_of_call,
  v2_eth_of_call, solidly_of_call, decode_router_calldata,
}
use sonic_edge.Dex.Decoder.Dispatch.{decode_router_calldata-encode, decode_router_calldata-none_iff}
use sonic_edge.Executor.Fees.{GasMode, FeeStrategy}
use sonic_edge.Executor.TxBuilder.{
  BuyV2Params, BuySolidlyParams, ExecutorTxBuilder, build_buy_v2, build_buy_solidly, BuyV2Call,
  BuySolidlyCall, encode_buy_v2, encode_buy_solidly, request,
}
use sonic_edge.Executor.TxBuilder.Built.{IsWord, IsCall, build_buy_v2_lem, build_buy_solidly_lem}
use sonic_edge.Tests.Codecs.{a_router_abi, a_router_codec, an_executor_abi, an_executor_codec}

packed_v2_iff_example : (packed_v2 30 50 ≡ packed_v2 50 30) ↔ SamePair 30 50 50 30
packed_v2_iff_example =
    packed_v2_iff 30 50 50 30 (omega arith) (omega arith) (omega arith) (omega arith)

packed_solidly_iff_example :
    (packed_solidly 30 50 true ≡ packed_solidly 50 30 false)
    ↔ (SamePair 30 50 50 30 × (true ≡ false))
packed_solidly_iff_example =
    packed_solidly_iff 30 50 50 30 (omega arith) (omega arith) (omega arith) (omega arith) true
      false

decode_router_calldata-encode_example :
    ((c : AddLiquidityCall)
      → decode_router_calldata a_router_abi (a_router_codec.encode_add_liquidity c)
        ≡ ok (some (RouterCall.add_liquidity (v2_of_call c))))
    × ((c : AddLiquidityEthCall)
        → decode_router_calldata a_router_abi (a_router_codec.encode_add_liquidity_eth c)
          ≡ ok (some (RouterCall.add_liquidity_eth (v2_eth_of_call c))))
    × ((c : SolidlyAddLiquidityCall)
        → decode_router_calldata a_router_abi (a_router_codec.encode_solidly_add_liquidity c)
          ≡ ok (some (RouterCall.add_liquidity_solidly (solidly_of_call c))))
decode_router_calldata-encode_example = decode_router_calldata-encode a_router_abi a_router_codec

abbrev other_input : Bytes
other_input = 1 ∷ 1 ∷ 1 ∷ 9 ∷ []

decode_router_calldata-none_iff_example :
    (decode_router_calldata a_router_abi other_input ≡ ok none) ↔ (
      (length other_input < 4)
      ⊎ ((take 4 other_input ≢ a_router_abi.add_liquidity_selector)
          × (take 4 other_input ≢ a_router_abi.add_liquidity_eth_selector)
          × (take 4 other_input ≢ a_router_abi.solidly_add_liquidity_selector)))
decode_router_calldata-none_iff_example = decode_router_calldata-none_iff a_router_abi other_input

abbrev pub some_fees : FeeStrategy
some_fees = record { gas_mode = GasMode.eip1559; max_fee_gwei = 50; max_priority_gwei = 2 }

abbrev pub a_builder : ExecutorTxBuilder
a_builder = record { contract = 22; owner = 21; chain_id = 146; fees = some_fees }

abbrev a_buy : ℕ → BuyV2Params
a_buy reserve = record {
  router = 70;
  path = 30 ∷ 50 ∷ [];
  amount_in = 500;
  min_amount_out = 0;
  recipient = 21;
  deadline = 31;
  pair = 110;
  min_base_reserve = reserve;
  min_token_reserve = 0;
  max_block_number = 0;
}

abbrev a_solidly_buy : ℕ → BuySolidlyParams
a_solidly_buy reserve = record {
  router = 70;
  token_in = 30;
  token_out = 50;
  stable = true;
  amount_in = 500;
  min_amount_out = 0;
  recipient = 21;
  deadline = 31;
  pair = 110;
  min_base_reserve = reserve;
  min_token_reserve = 0;
  max_block_number = 0;
}

abbrev bought_call : BuyV2Call
bought_call = record {
  router = 70;
  path = 30 ∷ 50 ∷ [];
  amount_in = 500;
  min_amount_out = 0;
  recipient = 21;
  deadline = 31;
  pair = 110;
  min_base_reserve = 9;
  min_token_reserve = 0;
  max_block_number = 0;
}

abbrev bought_solidly_call : BuySolidlyCall
bought_solidly_call = record {
  router = 70;
  token_in = 30;
  token_out = 50;
  stable = true;
  amount_in = 500;
  min_amount_out = 0;
  recipient = 21;
  deadline = 31;
  pair = 110;
  min_base_reserve = 9;
  min_token_reserve = 0;
  max_block_number = 0;
}

pub a_builder-IsWord : IsWord a_builder
a_builder-IsWord = record { fee = omega arith; priority = omega arith }

build_buy_v2_lem_example :
    (input : Bytes) × (encode_buy_v2 an_executor_abi (a_buy 9) ≡ ok input)
    × (build_buy_v2 an_executor_abi a_builder (a_buy 9) 5 ≡ ok (request a_builder input 5))
    × IsCall a_builder input 5 (request a_builder input 5)
    × (an_executor_codec.decode_buy_v2_call input ≡ some bought_call)
build_buy_v2_lem_example =
    build_buy_v2_lem an_executor_abi an_executor_codec a_builder 5 (a_buy 9) a_builder-IsWord
      (omega arith) (omega arith)

build_buy_solidly_lem_example :
    (input : Bytes) × (encode_buy_solidly an_executor_abi (a_solidly_buy 9) ≡ ok input)
    × (build_buy_solidly an_executor_abi a_builder (a_solidly_buy 9) 5
        ≡ ok (request a_builder input 5))
    × IsCall a_builder input 5 (request a_builder input 5)
    × (an_executor_codec.decode_buy_solidly_call input ≡ some bought_solidly_call)
build_buy_solidly_lem_example =
    build_buy_solidly_lem an_executor_abi an_executor_codec a_builder 5 (a_solidly_buy 9)
      a_builder-IsWord (omega arith) (omega arith)
