-- ===== src/Dex/Pair.antt =====
-- crates/dex/src/pair.rs: the questions to factories and pairs, and the CREATE2 derivation.
pub mod Packing
pub mod Questions
pub mod Steady
use sonic_edge.Base.{
  ℕ, zero, suc, ◌/◌, ◌%◌, Bool, Option, none, some, [], ◌∷◌, ◌++◌, ltb, not, ◌==◌, ◌||◌,
  if◌then◌else◌,
}
use sonic_edge.Exec.{Result, Exec, pure, lift, attempt, ◌>>=◌}
use sonic_edge.Core.Types.{Address, B256, U256, Bytes, address_zero}
use sonic_edge.Core.Env.{Env, ask}

-- The code that `sol!` generates from crates/dex/src/abi.rs for the calls of this file:
-- `abi_encode` of each call and `abi_decode_returns` of its answer.
pub record PairAbi : Type 0 where
  pub get_pair_call : Address → Address → Bytes
  pub get_pair_returns : Bytes → Result Address
  pub get_pair_solidly_call : Address → Address → Bool → Bytes
  pub get_pair_solidly_returns : Bytes → Result Address
  pub pair_code_hash_call : Bytes
  pub pair_code_hash_returns : Bytes → Result B256
  pub init_code_hash_call : Bytes
  pub init_code_hash_returns : Bytes → Result B256
  pub get_reserves_call : Bytes
  pub get_reserves_returns : Bytes → Result (ℕ × ℕ × ℕ)
  pub token0_call : Bytes
  pub token0_returns : Bytes → Result Address
  pub token1_call : Bytes
  pub token1_returns : Bytes → Result Address

-- `keccak256` and `Address::create2` of the `alloy` crate.
pub record Hashing : Type 0 where
  pub keccak256 : Bytes → B256
  pub create2 : Address → B256 → B256 → Address

unfoldable pub sort_tokens : Address → Address → Address × Address
sort_tokens token_a token_b = if ltb token_a token_b then (token_a, token_b) else (token_b, token_a)

-- The `n` big-endian bytes of a number.
unfoldable pub be_bytes : ℕ → ℕ → Bytes
be_bytes zero x = []
be_bytes (suc n) x = be_bytes n (x / 256) ++ (x % 256) ∷ []

-- The 40 bytes that a V2 factory hashes into the salt.
unfoldable pub packed_v2 : Address → Address → Bytes
unfolding sort_tokens
packed_v2 token_a token_b =
    let (token0, token1) = sort_tokens token_a token_b in be_bytes 20 token0 ++ be_bytes 20 token1

-- The 41 bytes that a Solidly factory hashes into the salt.
unfoldable pub packed_solidly : Address → Address → Bool → Bytes
unfolding sort_tokens
packed_solidly token_a token_b stable =
    let (token0, token1) = sort_tokens token_a token_b in
    be_bytes 20 token0 ++ (be_bytes 20 token1 ++ (if stable then 1 else 0) ∷ [])

unfoldable pub derive_pair_address_v2 : Hashing → Address → Address → Address → B256 → Address
derive_pair_address_v2 hashing factory token_a token_b init_code_hash =
    hashing.create2 factory (hashing.keccak256 (packed_v2 token_a token_b)) init_code_hash

unfoldable pub derive_pair_address_solidly :
    Hashing → Address → Address → Address → Bool → B256 → Address
derive_pair_address_solidly hashing factory token_a token_b stable init_code_hash =
    hashing.create2 factory (hashing.keccak256 (packed_solidly token_a token_b stable))
      init_code_hash

module _ (abi : PairAbi) (env : Env) where
  -- The zero address stands for a pair that does not exist.
  abbrev nonzero : Address → Option Address
  nonzero ret = if ret == address_zero then none else some ret

  unfoldable pub get_pair_address : Address → Address → Address → Exec ℕ (Option Address)
  get_pair_address factory token_a token_b = do
    answer ← ask λ n. env.call n factory (abi.get_pair_call token_a token_b)
    ret ← lift (abi.get_pair_returns answer)
    pure (nonzero ret)

  unfoldable pub get_pair_address_solidly :
      Address → Address → Address → Bool → Exec ℕ (Option Address)
  get_pair_address_solidly factory token_a token_b stable = do
    answer ← ask λ n. env.call n factory (abi.get_pair_solidly_call token_a token_b stable)
    ret ← lift (abi.get_pair_solidly_returns answer)
    pure (nonzero ret)

  unfoldable pub call_pair_code_hash : Address → Exec ℕ B256
  call_pair_code_hash factory = do
    answer ← ask λ n. env.call n factory abi.pair_code_hash_call
    lift (abi.pair_code_hash_returns answer)

  unfoldable pub call_init_code_hash : Address → Exec ℕ B256
  call_init_code_hash factory = do
    answer ← ask λ n. env.call n factory abi.init_code_hash_call
    lift (abi.init_code_hash_returns answer)

  unfoldable pub get_pair_code_hash : Address → Exec ℕ (Option B256)
  unfolding call_pair_code_hash call_init_code_hash
  get_pair_code_hash factory =
      attempt (call_pair_code_hash factory) (λ hash. pure (some hash))
        (λ _. attempt (call_init_code_hash factory) (λ hash. pure (some hash)) (λ _. pure none))

  abbrev pub is_empty : Bytes → Bool
  is_empty [] = Bool.true
  is_empty (b ∷ bs) = Bool.false

  unfoldable pub contract_exists : Address → Exec ℕ Bool
  contract_exists address = do code ← ask λ n. env.get_code_at n address; pure (not (is_empty code))

  unfoldable pub get_reserves : Address → Exec ℕ (Option (U256 × U256))
  get_reserves pair = do
    answer ← ask λ n. env.call n pair abi.get_reserves_call
    ret ← lift (abi.get_reserves_returns answer)
    pure (some (ret.0, ret.1))

  unfoldable pub get_pair_tokens : Address → Exec ℕ (Option (Address × Address))
  get_pair_tokens pair = do
    data0 ← ask λ n. env.call n pair abi.token0_call
    token0 ← lift (abi.token0_returns data0)
    data1 ← ask λ n. env.call n pair abi.token1_call
    token1 ← lift (abi.token1_returns data1)
    pure (if token0 == address_zero || token1 == address_zero then none else some (token0, token1))
