-- ===== src/Dex/Uncached.antt =====
-- What `PairMetadataCache::resolve` of crates/dex/src/pair_cache.rs would answer without its two
-- caches, where the answers of the node do not change.
pub mod Order
use sonic_edge.Base.{ℕ, ◌≡◌, Bool, Option, none, some, List, [], ◌∷◌, ◌==◌, ◌||◌, if◌then◌else◌}
use sonic_edge.Exec.{Result, ok, and_then}
use sonic_edge.Exec.Answers.{or_else}
use sonic_edge.Core.Types.{Address, B256, Bytes, address_zero}
use sonic_edge.Core.Env.{Env}
use sonic_edge.Dex.Pair.{PairAbi, Hashing, derive_pair_address_v2, derive_pair_address_solidly}
use sonic_edge.Dex.PairCache.{PairMetadata, tokens_match}

-- A state of the chain.
pub record Node : Type 0 where
  pub call : Address → Bytes → Result Bytes
  pub get_code_at : Address → Result Bytes

-- The answers are those of one state of the chain, whenever they are asked.
pub record IsSteady (env : Env) (node : Node) : Type 0 where
  pub call_lem : (n : ℕ) (to : Address) (input : Bytes) → env.call n to input ≡ node.call to input
  pub get_code_at_lem : (n : ℕ) (a : Address) → env.get_code_at n a ≡ node.get_code_at a

module _ (abi : PairAbi) (hashing : Hashing) (node : Node)
    (configured : Address → Option B256) where
  -- A call, and what its answer is read as.
  abbrev pub called : {A : Type 0} → Address → Bytes → (Bytes → Result A) → Result A
  called to input returns = and_then (node.call to input) returns

  abbrev pub unless_zero : Address → Option Address
  unless_zero ret = if ret == address_zero then none else some ret

  abbrev pub known_pair : Address → Address → Address → Option Bool → Result (Option Address)
  known_pair factory a b (some stable) =
      and_then (called factory (abi.get_pair_solidly_call a b stable) abi.get_pair_solidly_returns)
        λ ret. ok (unless_zero ret)
  known_pair factory a b none =
      and_then (called factory (abi.get_pair_call a b) abi.get_pair_returns)
        λ ret. ok (unless_zero ret)

  abbrev pub tokens_of : Address → Result (Option (Address × Address))
  tokens_of pair = and_then (called pair abi.token0_call abi.token0_returns) λ token0.
      and_then (called pair abi.token1_call abi.token1_returns) λ token1.
        ok
          (if token0 == address_zero || token1 == address_zero then none else some (token0, token1))

  abbrev pub asked_hash : Address → Result (Option B256)
  asked_hash factory =
      or_else (called factory abi.pair_code_hash_call abi.pair_code_hash_returns)
        (λ hash. ok (some hash))
        λ _.
          or_else (called factory abi.init_code_hash_call abi.init_code_hash_returns)
            (λ hash. ok (some hash)) λ _. ok none

  abbrev pub hash_or_asked : Address → Option B256 → Result (Option B256)
  hash_or_asked factory (some hash) = ok (some hash)
  hash_or_asked factory none = asked_hash factory

  -- A configured hash comes before the factory's own.
  abbrev pub hash_of : Address → Result (Option B256)
  hash_of factory = hash_or_asked factory (configured factory)

  module _ (factory : Address) where
    abbrev pub pair_with : Address → Option (Address × Address) → Option PairMetadata
    pair_with pair none = none
    pair_with pair (some (token0, token1)) =
        some (record { factory = factory; pair = pair; token0 = token0; token1 = token1 })

    module _ (a b : Address) where
      abbrev pub pair_if_matching : Address → Option (Address × Address) → Option PairMetadata
      pair_if_matching pair none = none
      pair_if_matching pair (some (token0, token1)) =
          if tokens_match a b token0 token1 then pair_with pair (some (token0, token1)) else none

      module _ (stable : Option Bool) where
        abbrev pub create2_address : B256 → Address
        create2_address hash = elim stable [
          | some flag ↦ derive_pair_address_solidly hashing factory a b flag hash
          | none ↦ derive_pair_address_v2 hashing factory a b hash
        ]

        abbrev pub pair_at : Address → Bytes → Result (Option PairMetadata)
        pair_at pair [] = ok none
        pair_at pair (_ ∷ _) =
            or_else (tokens_of pair) (λ tokens. ok (pair_if_matching pair tokens)) λ _. ok none

        abbrev pub by_hash : Option B256 → Result (Option PairMetadata)
        by_hash none = ok none
        by_hash (some hash) =
            and_then (node.get_code_at (create2_address hash))
              λ code. pair_at (create2_address hash) code

        abbrev pub by_answer : Option Address → Result (Option PairMetadata)
        by_answer none = and_then (hash_of factory) λ hash. by_hash hash
        by_answer (some pair) = and_then (tokens_of pair) λ tokens. ok (pair_with pair tokens)

        -- A factory that does not answer is one that knows no pair.
        unfoldable pub in_factory : Result (Option PairMetadata)
        in_factory =
            and_then (or_else (known_pair factory a b stable) (λ pair. ok pair) λ _. ok none)
              λ pair. by_answer pair

  -- The pair of the first factory that has one.
  unfoldable pub uncached :
      List Address → Address → Address → Option Bool → Result (Option PairMetadata)
  uncached [] a b stable = ok none
  uncached (factory ∷ factories) a b stable =
      let later = uncached factories a b stable in
      and_then (in_factory factory a b stable)
        λ found. elim found [ some m ↦ ok (some m) | none ↦ later ]
