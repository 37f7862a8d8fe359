-- ===== src/Executor/Fees.antt =====
-- crates/executor/src/fees.rs
use sonic_edge.Base.{ℕ, ◌*◌, ◌%◌, ◌^◌, ◌<◌, ◌≡◌, refl, none, some, arith}
use sonic_edge.Core.Types.{TransactionRequest}

pub data GasMode : Type 0 where
  eip1559 legacy : GasMode

pub record FeeStrategy : Type 0 where
  pub gas_mode : GasMode
  pub max_fee_gwei : ℕ
  pub max_priority_gwei : ℕ

-- The product of the `u64` and the constant in `u128`.
unfoldable pub gwei_to_wei : ℕ → ℕ
gwei_to_wei gwei = gwei * 1_000_000_000 % 2 ^ 128

unfoldable pub apply_mode : GasMode → FeeStrategy → TransactionRequest → TransactionRequest
apply_mode eip1559 fees tx = record tx {
  max_fee_per_gas = some (gwei_to_wei fees.max_fee_gwei);
  max_priority_fee_per_gas = some (gwei_to_wei fees.max_priority_gwei);
}
apply_mode legacy fees tx = record tx { gas_price = some (gwei_to_wei fees.max_fee_gwei) }

unfoldable pub apply : FeeStrategy → TransactionRequest → TransactionRequest
unfolding apply_mode
apply fees tx = apply_mode fees.gas_mode fees tx

-- The product never wraps: a 64-bit fee given in gwei is charged exactly.
pub gwei_to_wei_exact : (gwei : ℕ) → gwei < 2 ^ 64 → gwei_to_wei gwei ≡ gwei * 1_000_000_000
unfolding gwei_to_wei
gwei_to_wei_exact gwei h = omega arith

-- Everything but the three fee fields.
abbrev pub SameCall : TransactionRequest → TransactionRequest → Type 0
SameCall a b =
    (a.from ≡ b.from)
    × (a.to ≡ b.to)
    × (a.input ≡ b.input)
    × (a.nonce ≡ b.nonce)
    × (a.chain_id ≡ b.chain_id)

-- The fee fields that a mode asks for, in wei, and none of the other mode's.
abbrev pub HasFees : GasMode → ℕ → ℕ → TransactionRequest → Type 0
HasFees eip1559 fee priority tx =
    (tx.max_fee_per_gas ≡ some fee)
    × (tx.max_priority_fee_per_gas ≡ some priority)
    × (tx.gas_price ≡ none)
HasFees legacy fee priority tx =
    (tx.max_fee_per_gas ≡ none) × (tx.max_priority_fee_per_gas ≡ none) × (tx.gas_price ≡ some fee)

apply_mode-SameCall :
    (mode : GasMode) (fees : FeeStrategy) (tx : TransactionRequest)
    → SameCall (apply_mode mode fees tx) tx
unfolding apply_mode
apply_mode-SameCall eip1559 fees tx = (refl, refl, refl, refl, refl)
apply_mode-SameCall legacy fees tx = (refl, refl, refl, refl, refl)

apply_mode-HasFees :
    (mode : GasMode) (fees : FeeStrategy) (tx : TransactionRequest)
    → tx.max_fee_per_gas ≡ none
    → tx.max_priority_fee_per_gas ≡ none
    → tx.gas_price ≡ none
    → fees.max_fee_gwei < 2 ^ 64
    → fees.max_priority_gwei < 2 ^ 64
    → HasFees mode
        (fees.max_fee_gwei * 1_000_000_000)
        (fees.max_priority_gwei * 1_000_000_000)
        (apply_mode mode fees tx)
unfolding apply_mode
apply_mode-HasFees eip1559 fees tx a b c f p =
    (rw (gwei_to_wei_exact fees.max_fee_gwei f), rw (gwei_to_wei_exact fees.max_priority_gwei p), c)
apply_mode-HasFees legacy fees tx a b c f p = (a, b, rw (gwei_to_wei_exact fees.max_fee_gwei f))

module _ (fees : FeeStrategy) (tx : TransactionRequest) where
  pub apply-SameCall : SameCall (apply fees tx) tx
  unfolding apply
  apply-SameCall = apply_mode-SameCall fees.gas_mode fees tx

  -- To a request without fees, for 64-bit settings, the strategy adds exactly the fields of its
  -- mode, a billion wei for each configured gwei.
  pub apply-HasFees :
      tx.max_fee_per_gas ≡ none
      → tx.max_priority_fee_per_gas ≡ none
      → tx.gas_price ≡ none
      → fees.max_fee_gwei < 2 ^ 64
      → fees.max_priority_gwei < 2 ^ 64
      → HasFees fees.gas_mode
          (fees.max_fee_gwei * 1_000_000_000)
          (fees.max_priority_gwei * 1_000_000_000)
          (apply fees tx)
  unfolding apply
  apply-HasFees = apply_mode-HasFees fees.gas_mode fees tx
