-- ===== src/Dex/Decoder.antt =====
-- crates/dex/src/decoder.rs: router calldata, by its selector.
pub mod Dispatch
use sonic_edge.Base.{Bool, Option, none, some, ltb, length, take, bytes_eq, if◌then◌else◌}
use sonic_edge.Exec.{Result, ok, and_then}
use sonic_edge.Core.Types.{Address, U256, Bytes}

-- The calls of crates/dex/src/abi.rs, with the arguments of their signatures.
pub record AddLiquidityCall : Type 0 where
  pub token_a : Address
  pub token_b : Address
  pub amount_a_desired : U256
  pub amount_b_desired : U256
  pub amount_a_min : U256
  pub amount_b_min : U256
  pub to : Address
  pub deadline : U256

pub record AddLiquidityEthCall : Type 0 where
  pub token : Address
  pub amount_token_desired : U256
  pub amount_token_min : U256
  pub amount_eth_min : U256
  pub to : Address
  pub deadline : U256

pub record SolidlyAddLiquidityCall : Type 0 where
  pub token_a : Address
  pub token_b : Address
  pub stable : Bool
  pub amount_a_desired : U256
  pub amount_b_desired : U256
  pub amount_a_min : U256
  pub amount_b_min : U256
  pub to : Address
  pub deadline : U256

-- The code that `sol!` generates for these calls: the selectors, which are hashes of the
-- signatures, and `abi_decode`.
pub record RouterAbi : Type 0 where
  pub add_liquidity_selector : Bytes
  pub add_liquidity_eth_selector : Bytes
  pub solidly_add_liquidity_selector : Bytes
  pub decode_add_liquidity : Bytes → Result AddLiquidityCall
  pub decode_add_liquidity_eth : Bytes → Result AddLiquidityEthCall
  pub decode_solidly_add_liquidity : Bytes → Result SolidlyAddLiquidityCall

pub record V2AddLiquidity : Type 0 where
  pub token_a : Address
  pub token_b : Address
  pub amount_a_desired : U256
  pub amount_b_desired : U256
  pub to : Address
  pub deadline : U256

pub record V2AddLiquidityEth : Type 0 where
  pub token : Address
  pub amount_token_desired : U256
  pub amount_token_min : U256
  pub amount_eth_min : U256
  pub to : Address
  pub deadline : U256

pub record SolidlyAddLiquidity : Type 0 where
  pub token_a : Address
  pub token_b : Address
  pub stable : Bool
  pub amount_a_desired : U256
  pub amount_b_desired : U256
  pub amount_a_min : U256
  pub amount_b_min : U256
  pub to : Address
  pub deadline : U256

pub data RouterCall : Type 0 where
  add_liquidity : V2AddLiquidity → RouterCall
  add_liquidity_eth : V2AddLiquidityEth → RouterCall
  add_liquidity_solidly : SolidlyAddLiquidity → RouterCall

unfoldable pub v2_of_call : AddLiquidityCall → V2AddLiquidity
v2_of_call call = record {
  token_a = call.token_a;
  token_b = call.token_b;
  amount_a_desired = call.amount_a_desired;
  amount_b_desired = call.amount_b_desired;
  to = call.to;
  deadline = call.deadline;
}

unfoldable pub v2_eth_of_call : AddLiquidityEthCall → V2AddLiquidityEth
v2_eth_of_call call = record {
  token = call.token;
  amount_token_desired = call.amount_token_desired;
  amount_token_min = call.amount_token_min;
  amount_eth_min = call.amount_eth_min;
  to = call.to;
  deadline = call.deadline;
}

unfoldable pub solidly_of_call : SolidlyAddLiquidityCall → SolidlyAddLiquidity
solidly_of_call call = record {
  token_a = call.token_a;
  token_b = call.token_b;
  stable = call.stable;
  amount_a_desired = call.amount_a_desired;
  amount_b_desired = call.amount_b_desired;
  amount_a_min = call.amount_a_min;
  amount_b_min = call.amount_b_min;
  to = call.to;
  deadline = call.deadline;
}

unfoldable pub decode_router_calldata : RouterAbi → Bytes → Result (Option RouterCall)
decode_router_calldata abi input =
    let selector = take 4 input in
    if ltb (length input) 4
    then ok none
    else if bytes_eq selector abi.add_liquidity_selector
    then and_then (abi.decode_add_liquidity input)
        (λ call. ok (some (RouterCall.add_liquidity (v2_of_call call))))
    else if bytes_eq selector abi.add_liquidity_eth_selector
    then and_then (abi.decode_add_liquidity_eth input)
        (λ call. ok (some (RouterCall.add_liquidity_eth (v2_eth_of_call call))))
    else if bytes_eq selector abi.solidly_add_liquidity_selector
    then and_then (abi.decode_solidly_add_liquidity input)
        (λ call. ok (some (RouterCall.add_liquidity_solidly (solidly_of_call call))))
    else ok none
