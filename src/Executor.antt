-- ===== src/Executor.antt =====
-- crates/executor: fees, nonces and the transactions that call the executor contract.
pub mod Fees
pub mod Nonce
pub mod TxBuilder
