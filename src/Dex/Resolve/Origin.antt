-- ===== src/Dex/Resolve/Origin.antt =====
-- crates/dex/src/pair.rs: what vouches for a pair, and that the queries answer only what something
-- vouches for.
use sonic_edge.Base.{
  ℕ, ◌≡◌, ◌≢◌, ◌∙◌, sym, ap, ◌⊎◌, Bool, true, false, Option, none, some, [], ◌∷◌, arith, not, ◌==◌,
  ◌||◌, if◌then◌else◌, refl,
}
use sonic_edge.Exec.{Result, ok, err, panic, and_then, lift}
use sonic_edge.Exec.Ensures.{IfOk, Ensures, Any, Ensures-pure, Ensures-bind}
use sonic_edge.Core.Types.{Address, B256, Bytes, address_zero}
use sonic_edge.Core.Env.{Env, ask}
use sonic_edge.Dex.Pair.{
  PairAbi, Hashing, is_empty, packed_v2, packed_solidly, get_pair_address, get_pair_address_solidly,
  get_pair_tokens, contract_exists,
}
use sonic_edge.Dex.Pair.Packing.{SamePair}
use sonic_edge.Dex.PairCache.{PairMetadata}

module _ (abi : PairAbi) (hashing : Hashing) (env : Env) where
  -- The factory's answer about a pair of the two tokens, as the answer to a question.
  abbrev pub named_at : ℕ → Address → Address → Address → Option Bool → Result Address
  named_at question factory a b none =
      and_then (env.call question factory (abi.get_pair_call a b)) abi.get_pair_returns
  named_at question factory a b (some stable) =
      and_then (env.call question factory (abi.get_pair_solidly_call a b stable))
        abi.get_pair_solidly_returns

  abbrev pub salt_of : Address → Address → Option Bool → B256
  salt_of a b none = hashing.keccak256 (packed_v2 a b)
  salt_of a b (some stable) = hashing.keccak256 (packed_solidly a b stable)

  -- The factory named the pair for the two tokens.
  pub record Names (factory a b : Address) (stable : Option Bool) (pair : Address) : Type 0 where
    pub question : ℕ
    pub answer : named_at question factory a b stable ≡ ok pair
    pub exists : pair ≢ 0

  -- There is code at the address.
  pub record HasCode (pair : Address) : Type 0 where
    pub question : ℕ
    pub byte : ℕ
    pub bytes : Bytes
    pub answer : env.get_code_at question pair ≡ ok (byte ∷ bytes)

  -- The pair answered two tokens, neither of them the zero address.
  pub record HasTokens (pair token0 token1 : Address) : Type 0 where
    pub question0 : ℕ
    pub question1 : ℕ
    pub answer0 : and_then (env.call question0 pair abi.token0_call) abi.token0_returns ≡ ok token0
    pub answer1 : and_then (env.call question1 pair abi.token1_call) abi.token1_returns ≡ ok token1
    pub nonzero0 : token0 ≢ 0
    pub nonzero1 : token1 ≢ 0

  -- The pair is where the factory would put one of the two tokens, with some code hash; there is
  -- code there, and its tokens are the two.
  pub record Derives (factory a b : Address) (stable : Option Bool) (m : PairMetadata)
      : Type 0 where
    pub code_hash : B256
    pub address : m.pair ≡ hashing.create2 factory (salt_of a b stable) code_hash
    pub deployed : HasCode m.pair
    pub same : SamePair a b m.token0 m.token1

  pub record IsPairOf (factory a b : Address) (stable : Option Bool) (m : PairMetadata)
      : Type 0 where
    pub factory_lem : m.factory ≡ factory
    pub origin : Names factory a b stable m.pair ⊎ Derives factory a b stable m
    pub tokens : HasTokens m.pair m.token0 m.token1

  abbrev pub NamesIf : Address → Address → Address → Option Bool → Option Address → Type 0
  NamesIf factory a b stable none = Unit
  NamesIf factory a b stable (some pair) = Names factory a b stable pair

  abbrev pub HasTokensIf : Address → Option (Address × Address) → Type 0
  HasTokensIf pair none = Unit
  HasTokensIf pair (some t) = HasTokens pair t.0 t.1

  abbrev pub HasCodeIf : Address → Bool → Type 0
  HasCodeIf pair false = Unit
  HasCodeIf pair true = HasCode pair

  itself_ok : {A : Type 0} (r : Result A) → IfOk (λ a. r ≡ ok a) r
  itself_ok (ok a) = refl
  itself_ok (err e) = tt
  itself_ok panic = tt

  lift-Gives : {A : Type 0} (r : Result A) → Ensures {S = ℕ} Any (λ a. r ≡ ok a) (lift r)
  unfolding lift
  lift-Gives r = record { at = λ n h. (tt, itself_ok r) }

  -- The answer to one question.
  ask-Gives :
      {A : Type 0} (answer : ℕ → Result A)
      → Ensures Any (λ a. (n : ℕ) × (answer n ≡ ok a)) (ask answer)
  unfolding ask
  ask-Gives answer = record { at = λ n h. (tt, at_number (answer n) n refl) }
    where
      at_number : (r : Result _) (n : ℕ) → answer n ≡ r → IfOk (λ a. (n : ℕ) × (answer n ≡ ok a)) r
      at_number (ok a) n e = (n, e)
      at_number (err x) n e = tt
      at_number panic n e = tt

  named :
      (factory a b : Address) (stable : Option Bool) (question : ℕ) (ret : Address)
      → named_at question factory a b stable ≡ ok ret
      → NamesIf factory a b stable (if ret == address_zero then none else some ret)
  named factory a b stable question ret e =
      unless (ret == address_zero)
        (λ live. record { question = question; answer = e; exists = λ z. ground arith }) refl
    where
      unless :
          (zero : Bool)
          → ((ret == address_zero) ≡ false → Names factory a b stable ret)
          → zero ≡ (ret == address_zero)
          → NamesIf factory a b stable (if zero then none else some ret)
      unless true k z = tt
      unless false k z = k (sym z)

  pub get_pair_address-NamesIf :
      (factory a b : Address)
      → Ensures Any (NamesIf factory a b none) (get_pair_address abi env factory a b)
  unfolding get_pair_address
  get_pair_address-NamesIf factory a b =
      Ensures-bind Any _ (NamesIf factory a b none) _ _ (ask-Gives _) λ answer asked.
        Ensures-bind Any _ (NamesIf factory a b none) _ _ (lift-Gives (abi.get_pair_returns answer))
          λ ret read. Ensures-pure _ (
            named factory a b none asked.0 ret
              (ap (λ r. and_then r abi.get_pair_returns) asked.1 ∙ read))

  pub get_pair_address_solidly-NamesIf :
      (factory a b : Address) (stable : Bool)
      → Ensures Any
          (NamesIf factory a b (some stable))
          (get_pair_address_solidly abi env factory a b stable)
  unfolding get_pair_address_solidly
  get_pair_address_solidly-NamesIf factory a b stable =
      Ensures-bind Any _ (NamesIf factory a b (some stable)) _ _ (ask-Gives _) λ answer asked.
        Ensures-bind Any _ (NamesIf factory a b (some stable)) _ _
          (lift-Gives (abi.get_pair_solidly_returns answer))
          λ ret read. Ensures-pure _ (
            named factory a b (some stable) asked.0 ret
              (ap (λ r. and_then r abi.get_pair_solidly_returns) asked.1 ∙ read))

  pub contract_exists-HasCodeIf :
      (pair : Address) → Ensures Any (HasCodeIf pair) (contract_exists abi env pair)
  unfolding contract_exists
  contract_exists-HasCodeIf pair =
      Ensures-bind Any _ (HasCodeIf pair) _ _ (ask-Gives _)
        λ code asked. Ensures-pure _ (coded code asked.0 asked.1)
    where
      coded :
          (code : Bytes) (n : ℕ)
          → env.get_code_at n pair ≡ ok code
          → HasCodeIf pair (not (is_empty abi env code))
      coded [] n e = tt
      coded (b ∷ bs) n e = record { question = n; byte = b; bytes = bs; answer = e }

  pub get_pair_tokens-HasTokensIf :
      (pair : Address) → Ensures Any (HasTokensIf pair) (get_pair_tokens abi env pair)
  unfolding get_pair_tokens
  get_pair_tokens-HasTokensIf pair =
      Ensures-bind Any _ (HasTokensIf pair) _ _ (ask-Gives _) λ data0 asked0.
        Ensures-bind Any _ (HasTokensIf pair) _ _ (lift-Gives (abi.token0_returns data0))
          λ token0 read0. Ensures-bind Any _ (HasTokensIf pair) _ _ (ask-Gives _) λ data1 asked1.
            Ensures-bind Any _ (HasTokensIf pair) _ _ (lift-Gives (abi.token1_returns data1))
              λ token1 read1. Ensures-pure _ (
                both token0 token1 asked0.0 asked1.0
                  (ap (λ r. and_then r abi.token0_returns) asked0.1 ∙ read0)
                  (ap (λ r. and_then r abi.token1_returns) asked1.1 ∙ read1))
    where
      both :
          (token0 token1 : Address) (n0 n1 : ℕ)
          → and_then (env.call n0 pair abi.token0_call) abi.token0_returns ≡ ok token0
          → and_then (env.call n1 pair abi.token1_call) abi.token1_returns ≡ ok token1
          → HasTokensIf pair (
              if token0 == address_zero || token1 == address_zero
              then none
              else some (token0, token1))
      both token0 token1 n0 n1 e0 e1 =
          unless (token0 == address_zero || token1 == address_zero) refl
        where
          unless :
              (zero : Bool)
              → zero ≡ (token0 == address_zero || token1 == address_zero)
              → HasTokensIf pair (if zero then none else some (token0, token1))
          unless true z = tt
          unless false z = record {
            question0 = n0;
            question1 = n1;
            answer0 = e0;
            answer1 = e1;
            nonzero0 = λ e. ground arith;
            nonzero1 = λ e. ground arith;
          }
