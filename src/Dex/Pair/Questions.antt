-- ===== src/Dex/Pair/Questions.antt =====
-- crates/dex/src/pair.rs: how many questions a query asks.
use sonic_edge.Base.{ℕ, ◌+◌, Bool, arith}
use sonic_edge.Exec.{Result, Exec, lift, ◌>>=◌}
use sonic_edge.Exec.Ensures.{Any}
use sonic_edge.Exec.Costs.{
  Costs-weaken, Spends, Spends-of, Spends-pure, Spends-lift, Spends-bind, Spends-attempt,
}
use sonic_edge.Core.Types.{Address}
use sonic_edge.Core.Env.{Env, ask, now_ms}
use sonic_edge.Dex.Pair.{
  PairAbi, get_pair_address, get_pair_address_solidly, call_pair_code_hash, call_init_code_hash,
  get_pair_code_hash, contract_exists, get_pair_tokens,
}

-- At most `n` questions, whatever is answered.
abbrev pub Asks : {A : Type 0} → ℕ → Exec ℕ A → Type 0
Asks n m = Spends (λ asked. asked) n m

module _ {A : Type 0} where
  pub ask-Asks : (answer : ℕ → Result A) → Asks 1 (ask answer)
  unfolding ask
  ask-Asks answer = Spends-of _ 1 _ (λ s. omega arith)

  pub Asks-then :
      {B : Type 0} (k : ℕ) (answer : ℕ → Result A) (f : A → Exec ℕ B)
      → ((a : A) → Asks k (f a))
      → Asks (1 + k) (ask answer >>= f)
  Asks-then k answer f kf = Spends-bind _ 1 k _ f (ask-Asks answer) kf

  pub Asks-check :
      {B : Type 0} (k : ℕ) (r : Result A) (f : A → Exec ℕ B)
      → ((a : A) → Asks k (f a))
      → Asks k (lift r >>= f)
  Asks-check k r f kf =
      Costs-weaken Any _ (0 + k) k _ (omega arith) (Spends-bind _ 0 k _ f (Spends-lift _ 0 r) kf)

pub now_ms-Asks : (env : Env) → Asks 1 (now_ms env)
unfolding now_ms
now_ms-Asks env = ask-Asks _

module _ (abi : PairAbi) (env : Env) where
  pub get_pair_address-Asks : (f a b : Address) → Asks 1 (get_pair_address abi env f a b)
  unfolding get_pair_address
  get_pair_address-Asks f a b = Asks-then 0 _ _ λ answer. Asks-check 0 _ _ λ ret. Spends-pure _ 0 _

  pub get_pair_address_solidly-Asks :
      (f a b : Address) (stable : Bool) → Asks 1 (get_pair_address_solidly abi env f a b stable)
  unfolding get_pair_address_solidly
  get_pair_address_solidly-Asks f a b stable =
      Asks-then 0 _ _ λ answer. Asks-check 0 _ _ λ ret. Spends-pure _ 0 _

  pub get_pair_code_hash-Asks : (f : Address) → Asks 2 (get_pair_code_hash abi env f)
  unfolding get_pair_code_hash call_pair_code_hash call_init_code_hash
  get_pair_code_hash-Asks f =
      Spends-attempt _ 1 1 _ _ _ (Asks-then 0 _ _ λ answer. Spends-lift _ 0 _)
        (λ hash. Spends-pure _ 1 _)
        (λ _.
          Spends-attempt _ 1 0 _ _ _ (Asks-then 0 _ _ λ answer. Spends-lift _ 0 _)
            (λ hash. Spends-pure _ 0 _) (λ _. Spends-pure _ 0 _))

  pub contract_exists-Asks : (a : Address) → Asks 1 (contract_exists abi env a)
  unfolding contract_exists
  contract_exists-Asks a = Asks-then 0 _ _ λ code. Spends-pure _ 0 _

  pub get_pair_tokens-Asks : (pair : Address) → Asks 2 (get_pair_tokens abi env pair)
  unfolding get_pair_tokens
  get_pair_tokens-Asks pair = Asks-then 1 _ _ λ data0.
      Asks-check 1 _ _
        λ token0. Asks-then 0 _ _ λ data1. Asks-check 0 _ _ λ token1. Spends-pure _ 0 _
