-- ===== src/Core/Types.antt =====
-- crates/core/src/types.rs, and the chain's words and the transactions in the form in which the
-- program handles them.
use sonic_edge.Base.{ℕ, Bool, Option, List}

-- A 20-byte address, a 32-byte hash and a 256-bit word as the number that its big-endian bytes
-- spell, so that the order of addresses is the order of numbers. A byte is a number below 256.
abbrev pub Address : Type 0
Address = ℕ

abbrev pub B256 : Type 0
B256 = ℕ

abbrev pub U256 : Type 0
U256 = ℕ

abbrev pub Bytes : Type 0
Bytes = List ℕ

abbrev pub address_zero : Address
address_zero = 0

pub record MempoolTx : Type 0 where
  pub hash : B256
  pub from : Address
  pub to : Option Address
  pub input : Bytes
  pub value : U256
  pub nonce : ℕ
  pub gas_limit : ℕ
  pub max_fee_per_gas : Option ℕ
  pub max_priority_fee_per_gas : Option ℕ
  pub first_seen_ms : ℕ

pub record LiquidityCandidate : Type 0 where
  pub token : Address
  pub base : Address
  pub router : Address
  pub factory : Option Address
  pub pair : Option Address
  pub stable : Option Bool
  pub add_liq_tx_hash : B256
  pub first_seen_ms : ℕ
  pub implied_liquidity : U256

-- The answer to `eth_getTransactionByHash`, as far as the program reads it.
pub record RpcTransaction : Type 0 where
  pub tx_hash : B256
  pub from : Address
  pub to : Option Address
  pub input : Bytes
  pub value : U256
  pub nonce : ℕ
  pub gas_limit : ℕ
  pub max_fee_per_gas : ℕ
  pub max_priority_fee_per_gas : Option ℕ

-- The fields of a transaction request that the program sets. The others keep their default.
pub record TransactionRequest : Type 0 where
  pub from : Option Address
  pub to : Option Address
  pub input : Bytes
  pub nonce : Option ℕ
  pub chain_id : Option ℕ
  pub max_fee_per_gas : Option ℕ
  pub max_priority_fee_per_gas : Option ℕ
  pub gas_price : Option ℕ
