-- ===== src/Dex/Resolve/Questions.antt =====
-- crates/dex/src/pair_cache.rs: how many questions a resolution asks.
use sonic_edge.Base.{
  ℕ, ◌+◌, ◌*◌, Bool, true, false, Option, none, some, List, [], ◌∷◌, arith, length, leb,
}
use sonic_edge.Exec.{Exec, pure}
use sonic_edge.Exec.Costs.{
  Spends, Spends-of, Spends-pure, Spends-bind, Spends-attempt, Costs-if, Costs-weaken,
}
use sonic_edge.Exec.Ensures.{Any}
use sonic_edge.Lru.{Lru}
use sonic_edge.Core.Types.{Address, B256}
use sonic_edge.Core.Env.{Env}
use sonic_edge.Dex.Pair.{PairAbi, Hashing, get_pair_address, get_pair_address_solidly}
use sonic_edge.Dex.Pair.Questions.{
  Asks, now_ms-Asks, get_pair_address-Asks, get_pair_address_solidly-Asks, get_pair_code_hash-Asks,
  contract_exists-Asks, get_pair_tokens-Asks,
}
use sonic_edge.Dex.PairCache.{PairKey, PairKey-discrete, PairMetadata, CacheEntry, CodeHashEntry}
use sonic_edge.Dex.Resolve.{
  Session, query, cached, remember, code_hash_entry, remember_code_hash, fetch_code_hash,
  code_hash_or_fetch, code_hash_for_factory, derived_if_exists, derived_from_hash,
  resolve_with_create2, ask_factory, remembered, resolve_answer, resolve_uncached, resolve_factory,
  resolve_with_now, resolve,
}

module _ (lru : Lru PairKey CacheEntry PairKey-discrete) where
  abbrev asked : Session lru → ℕ
  asked s = s.asked

  query-Spends : {A : Type 0} (n : ℕ) (m : Exec ℕ A) → Asks n m → Spends asked n (query m)
  unfolding query
  query-Spends n m k = Spends-of asked n _ (λ s. k.bound s.asked tt)

  cached-Spends : (key : PairKey) (now : ℕ) → Spends asked 0 (cached key now)
  unfolding cached
  cached-Spends key now = Spends-of asked 0 _ (λ s. omega arith)

  entry-Spends : (factory : Address) → Spends asked 0 (code_hash_entry factory)
  unfolding code_hash_entry
  entry-Spends factory = Spends-of asked 0 _ (λ s. omega arith)

  remember_code_hash-Spends :
      (factory : Address) (entry : CodeHashEntry)
      → Spends asked 0 (remember_code_hash factory entry)
  unfolding remember_code_hash
  remember_code_hash-Spends factory entry = Spends-of asked 0 _ (λ s. omega arith)

  module _ (abi : PairAbi) (hashing : Hashing) (env : Env) where
    fetch-Spends :
        (factory : Address) (now : ℕ)
        → Spends asked 2 (fetch_code_hash lru abi hashing env factory now)
    unfolding fetch_code_hash
    fetch-Spends factory now =
        Spends-bind asked 2 0 _ _ (query-Spends 2 _ (get_pair_code_hash-Asks abi env factory))
          λ fetched.
            Spends-bind asked 0 0 _ _ (remember_code_hash-Spends factory _)
              λ _. Spends-pure asked 0 _

    code_hash_or_fetch-Spends :
        (factory : Address) (now : ℕ) (entry : Option CodeHashEntry)
        → Spends asked 2 (code_hash_or_fetch lru abi hashing env factory now entry)
    unfolding code_hash_or_fetch
    code_hash_or_fetch-Spends factory now none = fetch-Spends factory now
    code_hash_or_fetch-Spends factory now (some entry) =
        Costs-if Any asked 2 (leb now entry.expires_at_ms) (pure entry.value) _
          (λ _. Spends-pure asked 2 _) (λ _. fetch-Spends factory now)

    -- The clock, and both calls for a code hash.
    code_hash_for_factory-Spends :
        (factory : Address) → Spends asked 3 (code_hash_for_factory lru abi hashing env factory)
    unfolding code_hash_for_factory
    code_hash_for_factory-Spends factory =
        Spends-bind asked 1 2 _ _ (query-Spends 1 _ (now_ms-Asks env)) λ now.
          Spends-bind asked 0 2 _ _ (entry-Spends factory)
            λ entry. code_hash_or_fetch-Spends factory now entry

    derived_if_exists-Spends :
        (factory a b pair : Address) (exists : Bool)
        → Spends asked 2 (derived_if_exists lru abi hashing env factory a b pair exists)
    unfolding derived_if_exists
    derived_if_exists-Spends factory a b pair false = Spends-pure asked 2 _
    derived_if_exists-Spends factory a b pair true =
        Spends-attempt asked 2 0 _ _ _ (query-Spends 2 _ (get_pair_tokens-Asks abi env pair))
          (λ tokens. Spends-pure asked 0 _) (λ _. Spends-pure asked 0 _)

    derived_from_hash-Spends :
        (factory a b : Address) (stable : Option Bool) (hash : Option B256)
        → Spends asked 3 (derived_from_hash lru abi hashing env factory a b stable hash)
    unfolding derived_from_hash
    derived_from_hash-Spends factory a b stable none = Spends-pure asked 3 _
    derived_from_hash-Spends factory a b stable (some hash) =
        Spends-bind asked 1 2 _ _ (query-Spends 1 _ (contract_exists-Asks abi env _))
          (λ exists. derived_if_exists-Spends factory a b _ exists)

    create2-Spends :
        (factory a b : Address) (stable : Option Bool)
        → Spends asked 6 (resolve_with_create2 lru abi hashing env factory a b stable)
    unfolding resolve_with_create2
    create2-Spends factory a b stable =
        Spends-bind asked 3 3 _ _ (code_hash_for_factory-Spends factory)
          (λ hash. derived_from_hash-Spends factory a b stable hash)

    module _ (a b : Address) (stable : Option Bool) (now : ℕ) where
      ask_factory-Spends :
          (factory : Address)
          → Spends asked 1 (ask_factory lru abi hashing env a b stable now factory)
      unfolding ask_factory
      ask_factory-Spends factory =
          Spends-attempt asked 1 0 _ _ _ (query-Spends 1 _ (answer stable))
            (λ pair. Spends-pure asked 0 _) (λ _. Spends-pure asked 0 _)
        where
          answer :
              (kind : Option Bool)
              → Asks 1 (elim kind [
                | some flag ↦ get_pair_address_solidly abi env factory a b flag
                | none ↦ get_pair_address abi env factory a b
              ])
          answer none = get_pair_address-Asks abi env factory a b
          answer (some flag) = get_pair_address_solidly-Asks abi env factory a b flag

      remembered-Spends :
          (factory : Address) (result : Option PairMetadata)
          → Spends asked 0 (remembered lru abi hashing env a b stable now factory result)
      unfolding remembered remember
      remembered-Spends factory result =
          Spends-bind asked 0 0 _ _ (Spends-of asked 0 _ (λ s. omega arith))
            (λ _. Spends-pure asked 0 _)

      resolve_answer-Spends :
          (factory : Address) (pair : Option Address)
          → Spends asked 6 (resolve_answer lru abi hashing env a b stable now factory pair)
      unfolding resolve_answer
      resolve_answer-Spends factory none =
          Spends-bind asked 6 0 _ _ (create2-Spends factory a b stable)
            (λ found. remembered-Spends factory found)
      resolve_answer-Spends factory (some pair) = Costs-weaken Any asked 2 6 _ (omega arith) (
          Spends-bind asked 2 0 _ _ (query-Spends 2 _ (get_pair_tokens-Asks abi env pair))
            (λ tokens. remembered-Spends factory _))

      resolve_uncached-Spends :
          (factory : Address) (hit : Option (Option PairMetadata))
          → Spends asked 7 (resolve_uncached lru abi hashing env a b stable now factory hit)
      unfolding resolve_uncached
      resolve_uncached-Spends factory (some result) = Spends-pure asked 7 _
      resolve_uncached-Spends factory none =
          Spends-bind asked 1 6 _ _ (ask_factory-Spends factory)
            (λ pair. resolve_answer-Spends factory pair)

      resolve_with_now-Spends :
          (factories : List Address)
          → Spends asked
              (7 * length factories)
              (resolve_with_now lru abi hashing env a b stable now factories)
      unfolding resolve_with_now resolve_factory
      resolve_with_now-Spends [] = Spends-pure asked 0 _
      resolve_with_now-Spends (factory ∷ factories) =
          Costs-weaken Any asked (7 + 7 * length factories) _ _ (omega arith) (
            Spends-bind asked 7 (7 * length factories) _ _
              (Spends-bind asked 0 7 _ _ (cached-Spends _ now)
                λ hit. resolve_uncached-Spends factory hit)
              (elim [
                | none ↦ resolve_with_now-Spends factories
                | some m ↦ Spends-pure asked (7 * length factories) _
              ]))

    -- Whatever the cache holds and whatever is answered, a resolution over `n` factories ends after
    -- at most `1 + 7n` questions to the clock and the node.
    pub resolve-Spends :
        (factories : List Address) (a b : Address) (stable : Option Bool)
        → Spends asked (1 + 7 * length factories) (resolve lru abi hashing env factories a b stable)
    unfolding resolve
    resolve-Spends factories a b stable =
        Spends-bind asked 1 _ _ _ (query-Spends 1 _ (now_ms-Asks env))
          (λ now. resolve_with_now-Spends a b stable now factories)
