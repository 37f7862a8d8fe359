-- ===== src/Dex/Resolve/Create2.antt =====
-- `code_hash_for_factory` and `resolve_with_create2` keep the invariant of the remembered pairs.
use sonic_edge.Base.{
  ℕ, ◌≡◌, Bool, true, false, Option, none, some, inr, leb, if◌then◌else◌, refl, inl,
}
use sonic_edge.Exec.{pure}
use sonic_edge.Exec.Ensures.{
  Ensures, Any, Ensures-Any, Ensures-pure, Ensures-bind, Ensures-attempt, Ensures-if,
}
use sonic_edge.Lru.{Lru}
use sonic_edge.Core.Types.{Address, B256}
use sonic_edge.Core.Env.{Env}
use sonic_edge.Dex.Pair.{PairAbi, Hashing, derive_pair_address_v2, derive_pair_address_solidly}
use sonic_edge.Dex.PairCache.{
  PairKey, PairKey-discrete, PairMetadata, CacheEntry, CodeHashEntry, tokens_match,
}
use sonic_edge.Dex.PairCache.Keys.{tokens_match_iff}
use sonic_edge.Dex.Resolve.{
  Session, derived, fetch_code_hash, code_hash_or_fetch, code_hash_for_factory, derived_if_exists,
  derived_from_hash, checked_tokens, resolve_with_create2,
}
use sonic_edge.Dex.Resolve.Origin.{
  salt_of, HasCode, HasCodeIf, HasTokensIf, contract_exists-HasCodeIf, get_pair_tokens-HasTokensIf,
}
use sonic_edge.Dex.Resolve.Genuine.{
  FromFactory, IsGenuine, query-IsGenuine, entry-IsGenuine, remember_code_hash-IsGenuine,
}

module _ (lru : Lru PairKey CacheEntry PairKey-discrete) (abi : PairAbi) (hashing : Hashing)
    (env : Env) where
  abbrev Kept : Session lru → Type 0
  Kept = IsGenuine abi hashing env lru

  fetch-IsGenuine :
      (factory : Address) (now : ℕ)
      → Ensures Kept Any (fetch_code_hash lru abi hashing env factory now)
  unfolding fetch_code_hash
  fetch-IsGenuine factory now =
      Ensures-bind Kept Any Any _ _ (query-IsGenuine abi hashing env lru _ (Ensures-Any _))
        λ fetched _.
          Ensures-bind Kept Any Any _ _ (remember_code_hash-IsGenuine abi hashing env lru factory _)
            λ _ _. Ensures-pure _ tt

  code_hash_or_fetch-IsGenuine :
      (factory : Address) (now : ℕ) (entry : Option CodeHashEntry)
      → Ensures Kept Any (code_hash_or_fetch lru abi hashing env factory now entry)
  unfolding code_hash_or_fetch
  code_hash_or_fetch-IsGenuine factory now none = fetch-IsGenuine factory now
  code_hash_or_fetch-IsGenuine factory now (some entry) =
      Ensures-if (leb now entry.expires_at_ms) (pure entry.value) _
        (λ _. Ensures-pure entry.value tt) (λ _. fetch-IsGenuine factory now)

  -- The derived address is that of the salt.
  derived_salt :
      (factory a b : Address) (stable : Option Bool) (hash : B256)
      → derived lru abi hashing env factory a b stable hash
        ≡ hashing.create2 factory (salt_of abi hashing env a b stable) hash
  unfolding derive_pair_address_v2 derive_pair_address_solidly
  derived_salt factory a b none hash = refl
  derived_salt factory a b (some flag) hash = refl

  module _ (factory token_a token_b : Address) (stable : Option Bool) where
    abbrev Answer : Option PairMetadata → Type 0
    Answer = FromFactory abi hashing env factory token_a token_b stable

    checked-FromFactory :
        (pair : Address) (hash : B256) (tokens : Option (Address × Address))
        → pair ≡ hashing.create2 factory (salt_of abi hashing env token_a token_b stable) hash
        → HasCode abi hashing env pair
        → HasTokensIf abi hashing env pair tokens
        → Answer (checked_tokens lru abi hashing env factory token_a token_b pair tokens)
    unfolding checked_tokens
    checked-FromFactory pair hash none e code h = tt
    checked-FromFactory pair hash (some (token0, token1)) e code h =
        branch (tokens_match token_a token_b token0 token1) refl
      where
        branch :
            (b : Bool)
            → tokens_match token_a token_b token0 token1 ≡ b
            → Answer (
                if b
                then some
                    (record { factory = factory; pair = pair; token0 = token0; token1 = token1 })
                else none)
        branch true matching = (
          token_a,
          token_b,
          inl (refl, refl),
          record {
            factory_lem = refl;
            origin = inr (record {
              code_hash = hash;
              address = e;
              deployed = code;
              same = (tokens_match_iff token_a token_b token0 token1).0 matching;
            });
            tokens = h;
          },
        )
        branch false matching = tt

    derived_if_exists-FromFactory :
        (pair : Address) (hash : B256) (exists : Bool)
        → pair ≡ hashing.create2 factory (salt_of abi hashing env token_a token_b stable) hash
        → HasCodeIf abi hashing env pair exists
        → Ensures Kept Answer
            (derived_if_exists lru abi hashing env factory token_a token_b pair exists)
    unfolding derived_if_exists
    derived_if_exists-FromFactory pair hash false e code = Ensures-pure _ tt
    derived_if_exists-FromFactory pair hash true e code =
        Ensures-attempt Kept (HasTokensIf abi hashing env pair) Answer _ _ _
          (query-IsGenuine abi hashing env lru _ (get_pair_tokens-HasTokensIf abi hashing env pair))
          (λ tokens h. Ensures-pure _ (checked-FromFactory pair hash tokens e code h))
          (λ _. Ensures-pure _ tt)

    derived_from_hash-FromFactory :
        (hash : Option B256)
        → Ensures Kept Answer
            (derived_from_hash lru abi hashing env factory token_a token_b stable hash)
    unfolding derived_from_hash
    derived_from_hash-FromFactory none = Ensures-pure _ tt
    derived_from_hash-FromFactory (some hash) =
        Ensures-bind Kept (HasCodeIf abi hashing env _) Answer _ _
          (query-IsGenuine abi hashing env lru _ (contract_exists-HasCodeIf abi hashing env _))
          (λ exists code.
            derived_if_exists-FromFactory _ hash exists
              (derived_salt factory token_a token_b stable hash) code)

    pub create2-FromFactory :
        Ensures Kept Answer
          (resolve_with_create2 lru abi hashing env factory token_a token_b stable)
    unfolding resolve_with_create2 code_hash_for_factory
    create2-FromFactory =
        Ensures-bind Kept Any Answer _ _
          (Ensures-bind Kept Any Any _ _ (query-IsGenuine abi hashing env lru _ (Ensures-Any _))
            λ now _.
              Ensures-bind Kept Any Any _ _ (entry-IsGenuine abi hashing env lru factory)
                λ entry _. code_hash_or_fetch-IsGenuine factory now entry)
          (λ hash _. derived_from_hash-FromFactory hash)
