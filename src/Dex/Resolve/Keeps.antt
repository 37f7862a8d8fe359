-- ===== src/Dex/Resolve/Keeps.antt =====
-- What reading, storing and remembering a code hash keep, a whole resolution keeps.
use sonic_edge.Base.{ℕ, Bool, true, false, Option, none, some, List, [], ◌∷◌, leb}
use sonic_edge.Exec.{Exec, pure}
use sonic_edge.Exec.Ensures.{
  Ensures, Any, Ensures-Any, Ensures-pure, Ensures-bind, Ensures-attempt, Ensures-if,
}
use sonic_edge.Lru.{Lru}
use sonic_edge.Core.Types.{Address, B256}
use sonic_edge.Core.Env.{Env}
use sonic_edge.Dex.Pair.{PairAbi, Hashing}
use sonic_edge.Dex.PairCache.{
  PairKey, PairKey-discrete, PairMetadata, CacheEntry, CodeHashEntry, PairMetadataCache, get_cached,
  insert_cached,
}
use sonic_edge.Dex.Resolve.{
  Session, query, cached, remember, code_hash_entry, remember_code_hash, fetch_code_hash,
  code_hash_or_fetch, code_hash_for_factory, derived_if_exists, derived_from_hash,
  resolve_with_create2, ask_factory, remembered, resolve_answer, resolve_uncached, resolve_factory,
  resolve_with_now, resolve,
}

-- An invariant of the cache that each of the three writes keeps.
pub record IsKept (lru : Lru PairKey CacheEntry PairKey-discrete)
    (P : PairMetadataCache lru → Type 0) : Type 0 where
  pub read :
      (c : PairMetadataCache lru) (key : PairKey) (now : ℕ) → P c → P (get_cached lru c key now).1
  pub stored :
      (c : PairMetadataCache lru) (key : PairKey) (value : Option PairMetadata) (now : ℕ)
      → P c
      → P (insert_cached lru c key value now)
  pub hashed :
      (c : PairMetadataCache lru) (hashes : List (Address × CodeHashEntry))
      → P c
      → P (record c { pair_code_hashes = hashes })

module _ (lru : Lru PairKey CacheEntry PairKey-discrete) {P : PairMetadataCache lru → Type 0}
    (kept : IsKept lru P) where
  abbrev Holds : Session lru → Type 0
  Holds s = P s.cache

  pub query-kept : {A : Type 0} (m : Exec ℕ A) → Ensures Holds Any (query {lru = lru} m)
  unfolding query
  query-kept m = record { at = λ s h. (h, ((Ensures-Any m).at s.asked tt).1) }

  pub cached-kept : (key : PairKey) (now : ℕ) → Ensures Holds Any (cached {lru = lru} key now)
  unfolding cached
  cached-kept key now = record { at = λ s h. (kept.read s.cache key now h, tt) }

  pub remember-kept :
      (key : PairKey) (value : Option PairMetadata) (now : ℕ)
      → Ensures Holds Any (remember {lru = lru} key value now)
  unfolding remember
  remember-kept key value now = record { at = λ s h. (kept.stored s.cache key value now h, tt) }

  entry-kept : (factory : Address) → Ensures Holds Any (code_hash_entry {lru = lru} factory)
  unfolding code_hash_entry
  entry-kept factory = record { at = λ s h. (h, tt) }

  remember_code_hash-kept :
      (factory : Address) (entry : CodeHashEntry)
      → Ensures Holds Any (remember_code_hash {lru = lru} factory entry)
  unfolding remember_code_hash
  remember_code_hash-kept factory entry = record { at = λ s h. (kept.hashed s.cache _ h, tt) }

  module _ (abi : PairAbi) (hashing : Hashing) (env : Env) where
    fetch-kept :
        (factory : Address) (now : ℕ)
        → Ensures Holds Any (fetch_code_hash lru abi hashing env factory now)
    unfolding fetch_code_hash
    fetch-kept factory now = Ensures-bind Holds Any Any _ _ (query-kept _) λ fetched _.
        Ensures-bind Holds Any Any _ _ (remember_code_hash-kept factory _) λ _ _. Ensures-pure _ tt

    code_hash_or_fetch-kept :
        (factory : Address) (now : ℕ) (entry : Option CodeHashEntry)
        → Ensures Holds Any (code_hash_or_fetch lru abi hashing env factory now entry)
    unfolding code_hash_or_fetch
    code_hash_or_fetch-kept factory now none = fetch-kept factory now
    code_hash_or_fetch-kept factory now (some entry) =
        Ensures-if (leb now entry.expires_at_ms) (pure entry.value) _
          (λ _. Ensures-pure entry.value tt) (λ _. fetch-kept factory now)

    derived_if_exists-kept :
        (factory a b pair : Address) (exists : Bool)
        → Ensures Holds Any (derived_if_exists lru abi hashing env factory a b pair exists)
    unfolding derived_if_exists
    derived_if_exists-kept factory a b pair false = Ensures-pure _ tt
    derived_if_exists-kept factory a b pair true =
        Ensures-attempt Holds Any Any _ _ _ (query-kept _) (λ tokens _. Ensures-pure _ tt)
          (λ _. Ensures-pure _ tt)

    derived_from_hash-kept :
        (factory a b : Address) (stable : Option Bool) (hash : Option B256)
        → Ensures Holds Any (derived_from_hash lru abi hashing env factory a b stable hash)
    unfolding derived_from_hash
    derived_from_hash-kept factory a b stable none = Ensures-pure _ tt
    derived_from_hash-kept factory a b stable (some hash) =
        Ensures-bind Holds Any Any _ _ (query-kept _)
          (λ exists _. derived_if_exists-kept factory a b _ exists)

    pub create2-kept :
        (factory a b : Address) (stable : Option Bool)
        → Ensures Holds Any (resolve_with_create2 lru abi hashing env factory a b stable)
    unfolding resolve_with_create2 code_hash_for_factory
    create2-kept factory a b stable =
        Ensures-bind Holds Any Any _ _
          (Ensures-bind Holds Any Any _ _ (query-kept _) λ now _.
            Ensures-bind Holds Any Any _ _ (entry-kept factory)
              λ entry _. code_hash_or_fetch-kept factory now entry)
          (λ hash _. derived_from_hash-kept factory a b stable hash)

    module _ (a b : Address) (stable : Option Bool) (now : ℕ) where
      pub ask_factory-kept :
          (factory : Address)
          → Ensures Holds Any (ask_factory lru abi hashing env a b stable now factory)
      unfolding ask_factory
      ask_factory-kept factory =
          Ensures-attempt Holds Any Any _ _ _ (query-kept _) (λ pair _. Ensures-pure _ tt)
            (λ _. Ensures-pure _ tt)

      remembered-kept :
          (factory : Address) (result : Option PairMetadata)
          → Ensures Holds Any (remembered lru abi hashing env a b stable now factory result)
      unfolding remembered
      remembered-kept factory result =
          Ensures-bind Holds Any Any _ _ (remember-kept _ result now) (λ _ _. Ensures-pure _ tt)

      resolve_answer-kept :
          (factory : Address) (pair : Option Address)
          → Ensures Holds Any (resolve_answer lru abi hashing env a b stable now factory pair)
      unfolding resolve_answer
      resolve_answer-kept factory none =
          Ensures-bind Holds Any Any _ _ (create2-kept factory a b stable)
            (λ found _. remembered-kept factory found)
      resolve_answer-kept factory (some pair) =
          Ensures-bind Holds Any Any _ _ (query-kept _) (λ tokens _. remembered-kept factory _)

      resolve_uncached-kept :
          (factory : Address) (hit : Option (Option PairMetadata))
          → Ensures Holds Any (resolve_uncached lru abi hashing env a b stable now factory hit)
      unfolding resolve_uncached
      resolve_uncached-kept factory (some result) = Ensures-pure result tt
      resolve_uncached-kept factory none =
          Ensures-bind Holds Any Any _ _ (ask_factory-kept factory)
            (λ pair _. resolve_answer-kept factory pair)

      resolve_with_now-kept :
          (factories : List Address)
          → Ensures Holds Any (resolve_with_now lru abi hashing env a b stable now factories)
      unfolding resolve_with_now resolve_factory
      resolve_with_now-kept [] = Ensures-pure _ tt
      resolve_with_now-kept (factory ∷ factories) =
          Ensures-bind Holds Any Any _ _
            (Ensures-bind Holds Any Any _ _ (cached-kept _ now)
              λ hit _. resolve_uncached-kept factory hit)
            (elim [ none ↦ λ _. resolve_with_now-kept factories | some m ↦ λ _. Ensures-pure _ tt ])

    pub resolve-kept :
        (factories : List Address) (a b : Address) (stable : Option Bool) (s : Session lru)
        → P s.cache
        → P (resolve lru abi hashing env factories a b stable s).1.cache
    unfolding resolve
    resolve-kept factories a b stable s h =
        ((Ensures-bind Holds Any Any _ _ (query-kept _)
            (λ now _. resolve_with_now-kept a b stable now factories)).at
          s h).0
