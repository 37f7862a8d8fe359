-- ===== src/Chain/Fetcher.antt =====
-- crates/chain/src/fetcher.rs
use sonic_edge.Base.{ℕ, Option, none, some}
use sonic_edge.Exec.{Result, err, timeout_error, Exec, pure, ◌>>=◌}
use sonic_edge.Core.Types.{B256, MempoolTx, RpcTransaction}
use sonic_edge.Core.Env.{Env, ask, now_ms}

unfoldable pub map_tx : RpcTransaction → ℕ → MempoolTx
map_tx tx first_seen_ms = record {
  hash = tx.tx_hash;
  from = tx.from;
  to = tx.to;
  input = tx.input;
  value = tx.value;
  nonce = tx.nonce;
  gas_limit = tx.gas_limit;
  max_fee_per_gas = some tx.max_fee_per_gas;
  max_priority_fee_per_gas = tx.max_priority_fee_per_gas;
  first_seen_ms = first_seen_ms;
}

-- `timeout(…).await??`: an answer that is late is an error.
abbrev pub in_time : {A : Type 0} → Option (Result A) → Result A
in_time none = err timeout_error
in_time (some r) = r

unfoldable pub fetched : Env → Option RpcTransaction → Exec ℕ (Option MempoolTx)
fetched env none = pure none
fetched env (some tx) = do now ← now_ms env; pure (some (map_tx tx now))

unfoldable pub fetch : Env → ℕ → B256 → Exec ℕ (Option MempoolTx)
unfolding fetched
fetch env timeout_ms hash = do
  answer ← ask λ n. in_time (env.get_transaction_by_hash n timeout_ms hash)
  fetched env answer
