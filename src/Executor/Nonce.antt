-- ===== src/Executor/Nonce.antt =====
-- crates/executor/src/nonce.rs: the counter is atomic, so calls from several tasks are a sequence.
use sonic_edge.Base.{ℕ, zero, suc, ◌+◌, ◌%◌, ◌^◌, ◌≤◌, ◌≡◌, refl, ap, List, [], ◌∷◌, ◌++◌, arith}
use sonic_edge.Exec.{Result, ok, err}
use sonic_edge.Core.Types.{Address}
use sonic_edge.Core.Env.{Env}

pub record NonceManager : Type 0 where
  pub next : ℕ

unfoldable pub new : ℕ → NonceManager
new start = record { next = start }

-- `fetch_add` wraps at the end of `u64`.
unfoldable pub next_nonce : NonceManager → ℕ × NonceManager
next_nonce m = (m.next, record { next = (m.next + 1) % 2 ^ 64 })

unfoldable pub set : NonceManager → ℕ → NonceManager
set m value = record { next = value }

-- Asks the node for the account's transaction count; a failed call leaves the counter.
unfoldable pub sync_with : Result ℕ → NonceManager → Result ℕ × NonceManager
sync_with (ok nonce) m = (ok nonce, set m nonce)
sync_with (err e) m = (err e, m)
sync_with Result.panic m = (Result.panic, m)

unfoldable pub sync : Env → Address → NonceManager × ℕ → Result ℕ × (NonceManager × ℕ)
unfolding sync_with
sync env address (m, n) =
    let (r, m') = sync_with (env.get_transaction_count n address) m in (r, (m', suc n))

-- The nonces of `k` calls in a row.
unfoldable pub take_nonces : ℕ → NonceManager → List ℕ
take_nonces zero m = []
take_nonces (suc k) m = let (nonce, m') = next_nonce m in nonce ∷ take_nonces k m'

-- `k` numbers from `start` on.
unfoldable pub count_from : ℕ → ℕ → List ℕ
count_from zero start = []
count_from (suc k) start = start ∷ count_from k (start + 1)

-- Calls in a row, from whatever tasks, get consecutive nonces, none twice and none left out, until
-- the counter reaches the end of `u64`.
pub take_nonces-eq-count_from :
    (k start : ℕ) → start + k ≤ 2 ^ 64 → take_nonces k (new start) ≡ count_from k start
unfolding take_nonces count_from next_nonce new
take_nonces-eq-count_from zero start h = refl
take_nonces-eq-count_from (suc zero) start h = refl
take_nonces-eq-count_from (suc (suc k)) start h =
    let exact : (start + 1) % 2 ^ 64 ≡ start + 1 = omega arith in
    rw exact (ap (◌∷◌ start) (take_nonces-eq-count_from (suc k) (start + 1) (omega arith)))

-- The counter after `k` calls.
unfoldable pub after_nonces : ℕ → NonceManager → NonceManager
after_nonces zero m = m
after_nonces (suc k) m = after_nonces k (next_nonce m).1

pub after_nonces-suc :
    (k : ℕ) (m : NonceManager) → after_nonces (suc k) m ≡ (next_nonce (after_nonces k m)).1
unfolding after_nonces
after_nonces-suc zero m = refl
after_nonces-suc (suc k) m = after_nonces-suc k (next_nonce m).1

pub take_nonces-suc :
    (k : ℕ) (m : NonceManager)
    → take_nonces (suc k) m ≡ take_nonces k m ++ (next_nonce (after_nonces k m)).0 ∷ []
unfolding take_nonces after_nonces
take_nonces-suc zero m = refl
take_nonces-suc (suc k) m = ap (◌∷◌ (next_nonce m).0) (take_nonces-suc k (next_nonce m).1)
