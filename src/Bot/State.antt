-- ===== src/Bot/State.antt =====
-- crates/bot/src/state.rs: types that the bot does not use yet.
use sonic_edge.Base.{ℕ}
use sonic_edge.Core.Types.{B256, U256}

pub data BotState : Type 0 where
  detecting qualifying executing managing : BotState

pub record FillRecord : Type 0 where
  pub tx_hash : B256
  pub block_number : ℕ
  pub amount_out : U256
