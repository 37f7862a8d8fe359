-- ===== src/Core/Env.antt =====
-- What the program asks of the outside: the clock (`now_ms` of crates/core/src/utils.rs) and the
-- node. Every question is numbered, and the answers are arbitrary functions of the number and of
-- the question, so they may change from one question to the next in any way.
use sonic_edge.Base.{ℕ, suc, ◌%◌, ◌^◌, Option, get_or}
use sonic_edge.Exec.{Result, ok, Exec}
use sonic_edge.Core.Types.{Address, B256, Bytes, RpcTransaction, TransactionRequest}

pub record Env : Type 0 where
  -- Milliseconds since the epoch, or none for a clock that stands before it.
  pub system_time : ℕ → Option ℕ
  pub call : ℕ → Address → Bytes → Result Bytes
  pub get_code_at : ℕ → Address → Result Bytes
  -- None if the answer takes longer than the timeout, which is the first argument.
  pub get_transaction_by_hash : ℕ → ℕ → B256 → Option (Result (Option RpcTransaction))
  pub get_transaction_count : ℕ → Address → Result ℕ
  pub send_transaction : ℕ → TransactionRequest → Result B256

-- One question. The state is the number of questions asked so far.
unfoldable pub ask : {A : Type 0} → (ℕ → Result A) → Exec ℕ A
ask answer n = (answer n, suc n)

-- `as u64` drops the high bits of the 128-bit count.
unfoldable pub now_ms : Env → Exec ℕ ℕ
unfolding ask
now_ms env = ask λ n. ok (get_or (env.system_time n) 0 % 2 ^ 64)
