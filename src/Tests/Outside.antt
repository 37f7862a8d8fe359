-- ===== src/Tests/Outside.antt =====
-- A small world to run the program in: calldata is a list of fields behind its selector, one
-- factory knows one pair, and the node holds a few transactions.
use sonic_edge.Base.{ℕ, ◌+◌, Option, none, some, [], ◌∷◌, ◌==◌, if◌then◌else◌, length, ℕ_discrete}
use sonic_edge.Exec.{Result, ok, err, rpc_error, abi_error}
use sonic_edge.Lru.Listed.{listed}
use sonic_edge.Core.Types.{B256, Bytes, RpcTransaction}
use sonic_edge.Core.Env.{Env}
use sonic_edge.Dex.Pair.{PairAbi, Hashing}
use sonic_edge.Dex.PairCache.{PairKey-discrete}
use sonic_edge.Dex.Decoder.{AddLiquidityCall}
use sonic_edge.Bot.{World}
use sonic_edge.Tests.Codecs.{nth, flag, calldata, a_router_abi, an_executor_abi}

abbrev only : Bytes → Result ℕ
only (x ∷ []) = ok x
only _ = err abi_error

abbrev pub a_pair_abi : PairAbi
a_pair_abi = record {
  get_pair_call = λ a b. 1 ∷ a ∷ b ∷ [];
  get_pair_returns = only;
  get_pair_solidly_call = λ a b s. 2 ∷ a ∷ b ∷ flag s ∷ [];
  get_pair_solidly_returns = only;
  pair_code_hash_call = 3 ∷ [];
  pair_code_hash_returns = only;
  init_code_hash_call = 4 ∷ [];
  init_code_hash_returns = only;
  get_reserves_call = 5 ∷ [];
  get_reserves_returns = λ bs. ok (nth 0 bs, nth 1 bs, nth 2 bs);
  token0_call = 6 ∷ [];
  token0_returns = only;
  token1_call = 7 ∷ [];
  token1_returns = only;
}

abbrev pub a_hashing : Hashing
a_hashing = record { keccak256 = λ bs. length bs; create2 = λ f s h. f + s + h }

-- Factory 90 knows the pair 110 of the tokens 30 and 50, and the code hash 600.
abbrev answer : Bytes → Result Bytes
answer input =
    let selector = nth 0 input in
    if selector == 1
    then ok (110 ∷ [])
    else if selector == 4
    then ok (600 ∷ [])
    else if selector == 6
    then ok (30 ∷ [])
    else if selector == 7
    then ok (50 ∷ [])
    else err rpc_error

-- An add of 500 of base token 30 and 900 of token 50 to router 70.
abbrev pub an_add : AddLiquidityCall
an_add = record {
  token_a = 50;
  token_b = 30;
  amount_a_desired = 900;
  amount_b_desired = 500;
  amount_a_min = 0;
  amount_b_min = 0;
  to = 12;
  deadline = 5000;
}

abbrev pub a_tx : Bytes → RpcTransaction
a_tx input = record {
  tx_hash = 400;
  from = 12;
  to = some 70;
  input = input;
  value = 0;
  nonce = 8;
  gas_limit = 300000;
  max_fee_per_gas = 7;
  max_priority_fee_per_gas = none;
}

-- Hash 400 is an add, 401 is malformed, and the node does not answer in time about 402.
abbrev transaction : B256 → Option (Result (Option RpcTransaction))
transaction hash =
    if hash == 400
    then some (ok (some (a_tx (calldata an_add))))
    else if hash == 401
    then some (ok (some (a_tx (1 ∷ 1 ∷ 1 ∷ 1 ∷ []))))
    else none

abbrev pub an_env : Env
an_env = record {
  system_time = λ n. some (1000 + n);
  call = λ n to input. answer input;
  get_code_at = λ n a. ok (1 ∷ []);
  get_transaction_by_hash = λ n timeout hash. transaction hash;
  get_transaction_count = λ n a. ok 5;
  send_transaction = λ n tx. ok 777;
}

abbrev pub a_world : World
a_world = record {
  pair_lru = listed PairKey-discrete;
  dedupe_lru = listed ℕ_discrete;
  pair_abi = a_pair_abi;
  hashing = a_hashing;
  router_abi = a_router_abi;
  executor_abi = an_executor_abi;
  env = an_env;
}
