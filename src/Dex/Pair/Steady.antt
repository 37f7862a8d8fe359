-- ===== src/Dex/Pair/Steady.antt =====
-- crates/dex/src/pair.rs: the queries while the answers of the node do not change.
use sonic_edge.Base.{ℕ, Bool, Option, none, some, not}
use sonic_edge.Exec.{Result, ok, and_then, Exec, lift, ◌>>=◌}
use sonic_edge.Exec.Answers.{
  Answers, and_then_assoc, Answers-same, Answers-pure, Answers-lift, Answers-bind, Answers-attempt,
}
use sonic_edge.Core.Types.{Address, B256, Bytes}
use sonic_edge.Core.Env.{Env, ask}
use sonic_edge.Dex.Pair.{
  PairAbi, Hashing, get_pair_address, get_pair_address_solidly, call_pair_code_hash,
  call_init_code_hash, get_pair_code_hash, contract_exists, get_pair_tokens, is_empty,
}
use sonic_edge.Dex.Uncached.{Node, IsSteady, called, known_pair, tokens_of, asked_hash}

-- Any number of questions asked.
abbrev pub Whenever : ℕ → Type 0
Whenever n = Unit

module _ (abi : PairAbi) (hashing : Hashing) (env : Env) (node : Node)
    (configured : Address → Option B256) (steady : IsSteady env node) where
  call-Answers :
      (to : Address) (input : Bytes)
      → Answers Whenever (node.call to input) (ask λ n. env.call n to input)
  unfolding ask
  call-Answers to input = record { at = λ n _. (steady.call_lem n to input, tt) }

  asked-Answers :
      {A B : Type 0} (to : Address) (input : Bytes) (returns : Bytes → Result A) (r : A → Result B)
      (f : A → Exec ℕ B)
      → ((a : A) → Answers Whenever (r a) (f a))
      → Answers Whenever
          (and_then (called abi hashing node configured to input returns) r)
          (do answer ← ask λ n. env.call n to input; ret ← lift (returns answer); f ret)
  asked-Answers to input returns r f k =
      Answers-same (and_then_assoc (node.call to input) returns r) (
        Answers-bind _ _ _ _ (call-Answers to input)
          λ answer. Answers-bind _ _ _ _ (Answers-lift (returns answer)) k)

  pub get_pair_address-Answers :
      (factory a b : Address)
      → Answers Whenever
          (known_pair abi hashing node configured factory a b none)
          (get_pair_address abi env factory a b)
  unfolding get_pair_address
  get_pair_address-Answers factory a b =
      asked-Answers factory (abi.get_pair_call a b) abi.get_pair_returns _ _ λ ret. Answers-pure _

  pub get_pair_address_solidly-Answers :
      (factory a b : Address) (stable : Bool)
      → Answers Whenever
          (known_pair abi hashing node configured factory a b (some stable))
          (get_pair_address_solidly abi env factory a b stable)
  unfolding get_pair_address_solidly
  get_pair_address_solidly-Answers factory a b stable =
      asked-Answers factory (abi.get_pair_solidly_call a b stable) abi.get_pair_solidly_returns _ _
        λ ret. Answers-pure _

  pub get_pair_tokens-Answers :
      (pair : Address)
      → Answers Whenever (tokens_of abi hashing node configured pair) (get_pair_tokens abi env pair)
  unfolding get_pair_tokens
  get_pair_tokens-Answers pair =
      asked-Answers pair abi.token0_call abi.token0_returns _ _
        λ token0. asked-Answers pair abi.token1_call abi.token1_returns _ _ λ token1. Answers-pure _

  pub get_pair_code_hash-Answers :
      (factory : Address)
      → Answers Whenever
          (asked_hash abi hashing node configured factory)
          (get_pair_code_hash abi env factory)
  unfolding get_pair_code_hash call_pair_code_hash call_init_code_hash
  get_pair_code_hash-Answers factory =
      Answers-attempt _ _ _ _ _ _
        (Answers-bind _ _ _ _ (call-Answers factory _) λ answer. Answers-lift _)
        (λ hash. Answers-pure _)
        λ _.
          Answers-attempt _ _ _ _ _ _
            (Answers-bind _ _ _ _ (call-Answers factory _) λ answer. Answers-lift _)
            (λ hash. Answers-pure _) λ _. Answers-pure _

  code-Answers :
      (a : Address) → Answers Whenever (node.get_code_at a) (ask λ n. env.get_code_at n a)
  unfolding ask
  code-Answers a = record { at = λ n _. (steady.get_code_at_lem n a, tt) }

  pub contract_exists-Answers :
      (a : Address)
      → Answers Whenever
          (and_then (node.get_code_at a) λ code. ok (not (is_empty abi env code)))
          (contract_exists abi env a)
  unfolding contract_exists
  contract_exists-Answers a = Answers-bind _ _ _ _ (code-Answers a) λ code. Answers-pure _
