-- ===== src/Dex/Resolve.antt =====
-- `PairMetadataCache::resolve` of crates/dex/src/pair_cache.rs and what it calls. The state is
-- the cache and the number of questions that were asked of the clock and the node.
pub mod Keeps
pub mod Origin
pub mod Genuine
pub mod Create2
pub mod Provenance
pub mod Caching
pub mod CodeHashes
pub mod Questions
pub mod Current
pub mod Steady
use sonic_edge.Base.{
  ℕ, Bool, true, false, Option, none, some, List, [], ◌∷◌, leb, if◌then◌else◌, lookup, ℕ_discrete,
}
use sonic_edge.Base.Assoc.{insert}
use sonic_edge.Base.Words.{saturating_add}
use sonic_edge.Exec.{ok, Exec, pure, attempt, ◌>>=◌, ◌>>◌}
use sonic_edge.Lru.{Lru}
use sonic_edge.Core.Types.{Address, B256}
use sonic_edge.Core.Env.{Env, now_ms}
use sonic_edge.Dex.Pair.{
  PairAbi, Hashing, get_pair_address, get_pair_address_solidly, get_pair_code_hash, contract_exists,
  get_pair_tokens, derive_pair_address_v2, derive_pair_address_solidly,
}
use sonic_edge.Dex.PairCache.{
  PairKey, PairKey-discrete, PairMetadata, CacheEntry, CodeHashEntry, PairMetadataCache, new_key,
  get_cached, insert_cached, tokens_match, code_hash_positive_ttl_ms, code_hash_negative_ttl_ms,
}

pub record Session (lru : Lru PairKey CacheEntry PairKey-discrete) : Type 0 where
  pub cache : PairMetadataCache lru
  pub asked : ℕ

module _ {lru : Lru PairKey CacheEntry PairKey-discrete} where
  -- A question asked from a method of the cache.
  unfoldable pub query : {A : Type 0} → Exec ℕ A → Exec (Session lru) A
  query m s = ((m s.asked).0, record s { asked = (m s.asked).1 })

  unfoldable pub cached : PairKey → ℕ → Exec (Session lru) (Option (Option PairMetadata))
  cached key now_ms s = (
    ok (get_cached lru s.cache key now_ms).0,
    record s { cache = (get_cached lru s.cache key now_ms).1 },
  )

  unfoldable pub remember : PairKey → Option PairMetadata → ℕ → Exec (Session lru) (Unit {0})
  remember key value now_ms s =
      (ok tt, record s { cache = insert_cached lru s.cache key value now_ms })

  unfoldable pub code_hash_entry : Address → Exec (Session lru) (Option CodeHashEntry)
  code_hash_entry factory s = (ok (lookup ℕ_discrete factory s.cache.pair_code_hashes), s)

  unfoldable pub remember_code_hash : Address → CodeHashEntry → Exec (Session lru) (Unit {0})
  remember_code_hash factory entry s = (
    ok tt,
    record s {
      cache = record (s.cache) {
        pair_code_hashes = insert ℕ_discrete factory entry s.cache.pair_code_hashes;
      };
    },
  )

module _ (lru : Lru PairKey CacheEntry PairKey-discrete) (abi : PairAbi) (hashing : Hashing)
    (env : Env) where
  -- The entry of an answer; a factory without one is asked again after the shorter time.
  abbrev pub fetched_entry : Option B256 → ℕ → CodeHashEntry
  fetched_entry (some hash) now_ms = record {
    value = some hash;
    expires_at_ms = saturating_add now_ms code_hash_positive_ttl_ms;
  }
  fetched_entry none now_ms = record {
    value = none;
    expires_at_ms = saturating_add now_ms code_hash_negative_ttl_ms;
  }

  unfoldable pub fetch_code_hash : Address → ℕ → Exec (Session lru) (Option B256)
  fetch_code_hash factory now_ms = do
    fetched ← query (get_pair_code_hash abi env factory)
    remember_code_hash factory (fetched_entry fetched now_ms)
    pure fetched

  unfoldable pub code_hash_or_fetch :
      Address → ℕ → Option CodeHashEntry → Exec (Session lru) (Option B256)
  code_hash_or_fetch factory now_ms none = fetch_code_hash factory now_ms
  code_hash_or_fetch factory now_ms (some entry) =
      if leb now_ms entry.expires_at_ms then pure entry.value else fetch_code_hash factory now_ms

  unfoldable pub code_hash_for_factory : Address → Exec (Session lru) (Option B256)
  unfolding fetch_code_hash code_hash_or_fetch
  code_hash_for_factory factory = do
    now ← query (now_ms env)
    entry ← code_hash_entry factory
    code_hash_or_fetch factory now entry

  abbrev pub derived : Address → Address → Address → Option Bool → B256 → Address
  derived factory token_a token_b (some stable) hash =
      derive_pair_address_solidly hashing factory token_a token_b stable hash
  derived factory token_a token_b none hash =
      derive_pair_address_v2 hashing factory token_a token_b hash

  module _ (factory token_a token_b : Address) where
    -- What the tokens of a derived pair make of it.
    unfoldable pub checked_tokens : Address → Option (Address × Address) → Option PairMetadata
    checked_tokens pair none = none
    checked_tokens pair (some (token0, token1)) =
        if tokens_match token_a token_b token0 token1
        then some (record { factory = factory; pair = pair; token0 = token0; token1 = token1 })
        else none

    unfoldable pub derived_if_exists : Address → Bool → Exec (Session lru) (Option PairMetadata)
    derived_if_exists pair false = pure none
    derived_if_exists pair true =
        attempt (query (get_pair_tokens abi env pair)) (λ tokens. pure (checked_tokens pair tokens))
          (λ _. pure none)

    unfoldable pub derived_from_hash :
        Option Bool → Option B256 → Exec (Session lru) (Option PairMetadata)
    derived_from_hash stable none = pure none
    derived_from_hash stable (some init_code_hash) = do
      let pair = derived factory token_a token_b stable init_code_hash
      exists ← query (contract_exists abi env pair)
      derived_if_exists pair exists

    unfoldable pub resolve_with_create2 : Option Bool → Exec (Session lru) (Option PairMetadata)
    unfolding code_hash_for_factory derived_from_hash derived_if_exists checked_tokens
    resolve_with_create2 stable = do
      hash ← code_hash_for_factory factory
      derived_from_hash stable hash

  module _ (token_a token_b : Address) (stable : Option Bool) (now_ms : ℕ) where
    -- `getPair`; a failed call counts as no answer.
    unfoldable pub ask_factory : Address → Exec (Session lru) (Option Address)
    ask_factory factory =
        attempt
          (query (elim stable [
            | some flag ↦ get_pair_address_solidly abi env factory token_a token_b flag
            | none ↦ get_pair_address abi env factory token_a token_b
          ]))
          (λ pair. pure pair) (λ _. pure none)

    -- A positive result ends the search, a negative one goes on to the next factory; both are
    -- remembered.
    unfoldable pub remembered :
        Address → Option PairMetadata → Exec (Session lru) (Option PairMetadata)
    remembered factory result = do
      remember (new_key factory token_a token_b stable) result now_ms
      pure result

    abbrev pub pair_of_tokens : Address → Address → Option (Address × Address) → Option PairMetadata
    pair_of_tokens factory pair none = none
    pair_of_tokens factory pair (some (token0, token1)) =
        some (record { factory = factory; pair = pair; token0 = token0; token1 = token1 })

    unfoldable pub resolve_answer :
        Address → Option Address → Exec (Session lru) (Option PairMetadata)
    resolve_answer factory none = do
      found ← resolve_with_create2 factory token_a token_b stable
      remembered factory found
    resolve_answer factory (some pair) = do
      tokens ← query (get_pair_tokens abi env pair)
      remembered factory (pair_of_tokens factory pair tokens)

    unfoldable pub resolve_uncached :
        Address → Option (Option PairMetadata) → Exec (Session lru) (Option PairMetadata)
    resolve_uncached factory (some result) = pure result
    resolve_uncached factory none = do pair ← ask_factory factory; resolve_answer factory pair

    -- The body of the loop for one factory: none is `continue`, some is `return`.
    unfoldable pub resolve_factory : Address → Exec (Session lru) (Option PairMetadata)
    unfolding ask_factory remembered resolve_answer resolve_uncached
    resolve_factory factory = do
      hit ← cached (new_key factory token_a token_b stable) now_ms
      resolve_uncached factory hit

    unfoldable pub resolve_with_now : List Address → Exec (Session lru) (Option PairMetadata)
    resolve_with_now [] = pure none
    resolve_with_now (factory ∷ factories) = do
      found ← resolve_factory factory
      elim found [ some metadata ↦ pure (some metadata) | none ↦ resolve_with_now factories ]

  unfoldable pub resolve :
      List Address → Address → Address → Option Bool → Exec (Session lru) (Option PairMetadata)
  resolve factories token_a token_b stable = do
    now ← query (now_ms env)
    resolve_with_now token_a token_b stable now factories
