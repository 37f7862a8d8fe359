-- ===== src/Tests/Codecs.antt =====
-- Calldata as a list of fields behind its selector.
use sonic_edge.Base.{
  drop, ℕ, zero, suc, ◌^◌, ◌≡◌, refl, ap, Bool, true, false, none, some, [], ◌∷◌, arith, ltb, ◌==◌,
  if◌then◌else◌, length,
}
use sonic_edge.Exec.{ok, err, abi_error}
use sonic_edge.Core.Types.{Bytes}
use sonic_edge.Dex.Decoder.{
  AddLiquidityCall, AddLiquidityEthCall, SolidlyAddLiquidityCall, RouterAbi,
}
use sonic_edge.Dex.Decoder.Dispatch.{AbiCodec}
use sonic_edge.Executor.TxBuilder.{ExecutorAbi}
use sonic_edge.Executor.TxBuilder.Built.{ExecutorCodec}

abbrev pub nth : ℕ → Bytes → ℕ
nth n [] = 0
nth zero (b ∷ bs) = b
nth (suc n) (b ∷ bs) = nth n bs

abbrev pub flag : Bool → ℕ
flag false = 0
flag true = 1

pub flag_back : (b : Bool) → (flag b == 1) ≡ b
flag_back false = refl
flag_back true = refl

abbrev pub calldata : AddLiquidityCall → Bytes
calldata c =
    1 ∷ 1 ∷ 1 ∷ 1 ∷ c.token_a ∷ c.token_b ∷ c.amount_a_desired ∷ c.amount_b_desired ∷ c.amount_a_min
    ∷ c.amount_b_min ∷ c.to ∷ c.deadline ∷ []

abbrev eth_calldata : AddLiquidityEthCall → Bytes
eth_calldata c =
    2 ∷ 2 ∷ 2 ∷ 2 ∷ c.token ∷ c.amount_token_desired ∷ c.amount_token_min ∷ c.amount_eth_min ∷ c.to
    ∷ c.deadline ∷ []

abbrev solidly_calldata : SolidlyAddLiquidityCall → Bytes
solidly_calldata c =
    3
    ∷ 3
    ∷ 3
    ∷ 3
    ∷ c.token_a
    ∷ c.token_b
    ∷ flag c.stable
    ∷ c.amount_a_desired
    ∷ c.amount_b_desired
    ∷ c.amount_a_min
    ∷ c.amount_b_min
    ∷ c.to
    ∷ c.deadline
    ∷ []

abbrev pub a_router_abi : RouterAbi
a_router_abi = record {
  add_liquidity_selector = 1 ∷ 1 ∷ 1 ∷ 1 ∷ [];
  add_liquidity_eth_selector = 2 ∷ 2 ∷ 2 ∷ 2 ∷ [];
  solidly_add_liquidity_selector = 3 ∷ 3 ∷ 3 ∷ 3 ∷ [];
  decode_add_liquidity = λ bs.
      if length bs == 12
      then ok (record {
        token_a = nth 4 bs;
        token_b = nth 5 bs;
        amount_a_desired = nth 6 bs;
        amount_b_desired = nth 7 bs;
        amount_a_min = nth 8 bs;
        amount_b_min = nth 9 bs;
        to = nth 10 bs;
        deadline = nth 11 bs;
      })
      else err abi_error;
  decode_add_liquidity_eth = λ bs. ok (record {
    token = nth 4 bs;
    amount_token_desired = nth 5 bs;
    amount_token_min = nth 6 bs;
    amount_eth_min = nth 7 bs;
    to = nth 8 bs;
    deadline = nth 9 bs;
  });
  decode_solidly_add_liquidity = λ bs. ok (record {
    token_a = nth 4 bs;
    token_b = nth 5 bs;
    stable = nth 6 bs == 1;
    amount_a_desired = nth 7 bs;
    amount_b_desired = nth 8 bs;
    amount_a_min = nth 9 bs;
    amount_b_min = nth 10 bs;
    to = nth 11 bs;
    deadline = nth 12 bs;
  });
}

abbrev pub a_router_codec : AbiCodec a_router_abi
a_router_codec = record {
  encode_add_liquidity = calldata;
  encode_add_liquidity_eth = eth_calldata;
  encode_solidly_add_liquidity = solidly_calldata;
  selector_length = (refl, refl, refl);
  selectors_differ = (λ e. ground arith, λ e. ground arith, λ e. ground arith);
  begins_add_liquidity = λ c. refl;
  begins_add_liquidity_eth = λ c. refl;
  begins_solidly_add_liquidity = λ c. refl;
  decode-encode_add_liquidity = λ c. refl;
  decode-encode_add_liquidity_eth = λ c. refl;
  decode-encode_solidly_add_liquidity =
      λ c. ap (λ s. ok (record c { stable = s })) (flag_back c.stable);
}

abbrev pub an_executor_abi : ExecutorAbi
an_executor_abi = record {
  u112_from = λ v. if ltb v (2 ^ 112) then some v else none;
  encode_buy_v2_call = λ c.
      c.router ∷ c.amount_in ∷ c.min_amount_out ∷ c.recipient ∷ c.deadline ∷ c.pair
      ∷ c.min_base_reserve ∷ c.min_token_reserve ∷ c.max_block_number ∷ c.path;
  encode_buy_solidly_call = λ c.
      c.router
      ∷ c.token_in
      ∷ c.token_out
      ∷ flag c.stable
      ∷ c.amount_in
      ∷ c.min_amount_out
      ∷ c.recipient
      ∷ c.deadline
      ∷ c.pair
      ∷ c.min_base_reserve
      ∷ c.min_token_reserve
      ∷ c.max_block_number
      ∷ [];
}

abbrev pub an_executor_codec : ExecutorCodec an_executor_abi
an_executor_codec = record {
  decode_buy_v2_call = λ bs. some (record {
    router = nth 0 bs;
    path = drop 9 bs;
    amount_in = nth 1 bs;
    min_amount_out = nth 2 bs;
    recipient = nth 3 bs;
    deadline = nth 4 bs;
    pair = nth 5 bs;
    min_base_reserve = nth 6 bs;
    min_token_reserve = nth 7 bs;
    max_block_number = nth 8 bs;
  });
  decode_buy_solidly_call = λ bs. some (record {
    router = nth 0 bs;
    token_in = nth 1 bs;
    token_out = nth 2 bs;
    stable = nth 3 bs == 1;
    amount_in = nth 4 bs;
    min_amount_out = nth 5 bs;
    recipient = nth 6 bs;
    deadline = nth 7 bs;
    pair = nth 8 bs;
    min_base_reserve = nth 9 bs;
    min_token_reserve = nth 10 bs;
    max_block_number = nth 11 bs;
  });
  u112_fits = λ v h. ground arith;
  decode-encode_buy_v2 = λ c. refl;
  decode-encode_buy_solidly = λ c. ap (λ s. some (record c { stable = s })) (flag_back c.stable);
}
