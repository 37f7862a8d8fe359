-- ===== src/Dex/Uncached/Order.antt =====
-- `PairMetadataCache::resolve` of crates/dex/src/pair_cache.rs without its caches: the order of the two
-- tokens makes no difference, where it makes none to the factories.
use sonic_edge.Base.{
  ◌≡◌, ap, refl, inl, inr, Bool, Option, none, some, [], ◌∷◌, ◌++◌, ltb, if◌then◌else◌, Bool-cases,
}
use sonic_edge.Exec.{ok}
use sonic_edge.Exec.Answers.{and_then_congr, or_else_congr}
use sonic_edge.Core.Types.{Address, B256, Bytes}
use sonic_edge.Dex.Pair.{
  PairAbi, Hashing, be_bytes, packed_v2, packed_solidly, derive_pair_address_v2,
  derive_pair_address_solidly,
}
use sonic_edge.Dex.Pair.Packing.{sort_tokens_comm}
use sonic_edge.Dex.PairCache.{new_key, tokens_match}
use sonic_edge.Dex.Uncached.{
  Node, known_pair, tokens_of, create2_address, pair_if_matching, pair_at, by_hash, by_answer,
  in_factory,
}

module _ (abi : PairAbi) (hashing : Hashing) (node : Node)
    (configured : Address → Option B256) where
  -- A factory answers the same for the two tokens in either order.
  pub record IsSymmetric : Type 0 where
    pub known_pair_comm :
        (factory a b : Address) (stable : Option Bool)
        → known_pair abi hashing node configured factory a b stable
          ≡ known_pair abi hashing node configured factory b a stable

  create2_address_comm :
      (factory a b : Address) (stable : Option Bool) (hash : B256)
      → create2_address abi hashing node configured factory a b stable hash
        ≡ create2_address abi hashing node configured factory b a stable hash
  unfolding derive_pair_address_v2 derive_pair_address_solidly packed_v2 packed_solidly
  create2_address_comm factory a b none hash =
      ap
        (λ t. hashing.create2 factory (hashing.keccak256 (be_bytes 20 t.0 ++ be_bytes 20 t.1)) hash)
        (sort_tokens_comm a b)
  create2_address_comm factory a b (some stable) hash =
      ap
        (λ t.
          hashing.create2 factory
            (hashing.keccak256
              (be_bytes 20 t.0 ++ (be_bytes 20 t.1 ++ (if stable then 1 else 0) ∷ [])))
            hash)
        (sort_tokens_comm a b)

  pair_if_matching_comm :
      (factory a b pair : Address) (tokens : Option (Address × Address))
      → pair_if_matching abi hashing node configured factory a b pair tokens
        ≡ pair_if_matching abi hashing node configured factory b a pair tokens
  unfolding tokens_match
  pair_if_matching_comm factory a b pair none = refl
  pair_if_matching_comm factory a b pair (some (token0, token1)) = rw (sort_tokens_comm a b) refl

  by_hash_comm :
      (factory a b : Address) (stable : Option Bool) (hash : Option B256)
      → by_hash abi hashing node configured factory a b stable hash
        ≡ by_hash abi hashing node configured factory b a stable hash
  by_hash_comm factory a b stable none = refl
  by_hash_comm factory a b stable (some hash) =
      rw (create2_address_comm factory a b stable hash) (and_then_congr _ _ _ λ code. at_code code)
    where
      pair : Address
      pair = create2_address abi hashing node configured factory b a stable hash

      at_code :
          (code : Bytes)
          → pair_at abi hashing node configured factory a b stable pair code
            ≡ pair_at abi hashing node configured factory b a stable pair code
      at_code [] = refl
      at_code (_ ∷ _) =
          or_else_congr (tokens_of abi hashing node configured pair) _ _ _
            λ tokens. ap ok (pair_if_matching_comm factory a b pair tokens)

  by_answer_comm :
      (factory a b : Address) (stable : Option Bool) (pair : Option Address)
      → by_answer abi hashing node configured factory a b stable pair
        ≡ by_answer abi hashing node configured factory b a stable pair
  by_answer_comm factory a b stable none =
      and_then_congr _ _ _ λ hash. by_hash_comm factory a b stable hash
  by_answer_comm factory a b stable (some pair) = refl

  module _ (symmetric : IsSymmetric) where
    in_factory_comm :
        (factory a b : Address) (stable : Option Bool)
        → in_factory abi hashing node configured factory a b stable
          ≡ in_factory abi hashing node configured factory b a stable
    unfolding in_factory
    in_factory_comm factory a b stable =
        rw (symmetric.known_pair_comm factory a b stable)
          (and_then_congr _ _ _ λ pair. by_answer_comm factory a b stable pair)

    -- The key's tokens are those of the request, in one of the two orders.
    pub in_factory-new_key :
        (factory a b : Address) (stable : Option Bool)
        → let key = new_key factory a b stable in
          in_factory abi hashing node configured key.factory key.token0 key.token1 key.stable
          ≡ in_factory abi hashing node configured factory a b stable
    unfolding new_key
    in_factory-new_key factory a b stable = elim (Bool-cases (ltb a b)) [
      | inl less ↦ rw less refl
      | inr more ↦ rw more (in_factory_comm factory b a stable)
    ]
