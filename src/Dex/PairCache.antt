-- ===== src/Dex/PairCache.antt =====
-- crates/dex/src/pair_cache.rs: `PairMetadataCache`. A call that asks the node runs over the
-- cache and the number of questions asked.
pub mod Keys
pub mod Entries
pub mod Stored
use sonic_edge.Base.{
  ℕ, Bool, Option, none, some, List, map, ltb, leb, is_some, max, ◌==◌, ◌&&◌, if◌then◌else◌,
  ℕ_discrete,
}
use sonic_edge.Base.Words.{saturating_add, u64_max}
use sonic_edge.Lru.{Lru}
use sonic_edge.Core.Types.{Address, B256}
use sonic_edge.Core.Env.{now_ms}
use sonic_edge.Dex.Pair.{sort_tokens}

pub record PairMetadata : Type 0 where
  pub factory : Address
  pub pair : Address
  pub token0 : Address
  pub token1 : Address

pub record PairKey : Type 0 where
  pub factory : Address
  pub token0 : Address
  pub token1 : Address
  pub stable : Option Bool

-- The derived `PartialEq` of the key.
unfoldable pub PairKey-discrete : Discrete PairKey
unfolding ℕ_discrete
PairKey-discrete = hlevel ℕ_discrete

unfoldable pub new_key : Address → Address → Address → Option Bool → PairKey
new_key factory token_a token_b stable =
    let (token0, token1) = if ltb token_a token_b then (token_a, token_b) else (token_b, token_a) in
    record { factory = factory; token0 = token0; token1 = token1; stable = stable }

pub record CacheEntry : Type 0 where
  pub value : Option PairMetadata
  pub expires_at_ms : ℕ

pub record CodeHashEntry : Type 0 where
  pub value : Option B256
  pub expires_at_ms : ℕ

abbrev pub code_hash_negative_ttl_ms : ℕ
code_hash_negative_ttl_ms = 30_000

abbrev pub code_hash_positive_ttl_ms : ℕ
code_hash_positive_ttl_ms = 600_000

-- The file's own copy of the function of crates/dex/src/pair.rs.
unfoldable pub tokens_match : Address → Address → Address → Address → Bool
unfolding sort_tokens
tokens_match token_a token_b token0 token1 =
    let (want0, want1) = sort_tokens token_a token_b in
    let (have0, have1) = sort_tokens token0 token1 in want0 == have0 && want1 == have1

pub record PairMetadataCache (lru : Lru PairKey CacheEntry PairKey-discrete) : Type 0 where
  pub positive_ttl_ms : ℕ
  pub negative_ttl_ms : ℕ
  pub entries : lru.Cache
  pub pair_code_hashes : List (Address × CodeHashEntry)

module _ (lru : Lru PairKey CacheEntry PairKey-discrete) where
  -- A configured hash never expires.
  abbrev pub configured : Address × B256 → Address × CodeHashEntry
  configured (factory, hash) = (factory, record { value = some hash; expires_at_ms = u64_max })

  unfoldable pub new : ℕ → ℕ → ℕ → List (Address × B256) → PairMetadataCache lru
  new capacity positive_ttl_ms negative_ttl_ms pair_code_hashes = record {
    positive_ttl_ms = positive_ttl_ms;
    negative_ttl_ms = negative_ttl_ms;
    entries = lru.new (max capacity 1);
    pair_code_hashes = map configured pair_code_hashes;
  }

  unfoldable pub get_cached :
      PairMetadataCache lru → PairKey → ℕ → Option (Option PairMetadata) × PairMetadataCache lru
  get_cached c key now_ms =
      let (found, entries) = lru.get c.entries key in
      let popped = record c { entries = lru.pop entries key } in
      elim found [
        | none ↦ (none, popped)
        | some entry ↦
            if leb now_ms entry.expires_at_ms
            then (some entry.value, record c { entries = entries })
            else (none, popped)
      ]

  unfoldable pub insert_cached :
      PairMetadataCache lru → PairKey → Option PairMetadata → ℕ → PairMetadataCache lru
  insert_cached c key value now_ms =
      let ttl_ms = if is_some value then c.positive_ttl_ms else c.negative_ttl_ms in
      record c {
        entries =
            lru.put c.entries key
              (record { value = value; expires_at_ms = saturating_add now_ms ttl_ms });
      }
