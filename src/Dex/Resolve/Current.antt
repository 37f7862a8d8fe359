-- ===== src/Dex/Resolve/Current.antt =====
-- The invariant of a cache while the answers of the node do not change, and that reading and
-- writing keep it.
use mathlib.Core.Logic.{if_pos, if_neg}
use sonic_edge.Base.{
  ℕ, ◌≤◌, ◌≡◌, ap, refl, ◌∙◌, ◌⊎◌, inl, Option, none, some, List, [], ◌∷◌, arith, All, map, lookup,
  ℕ_discrete,
}
use sonic_edge.Base.Assoc.{remove, insert, lookup-cons_self, lookup-cons_ne, lookup-remove_ne}
use sonic_edge.Base.Words.{u64_max}
use sonic_edge.Exec.{Result, ok, Exec}
use sonic_edge.Exec.Answers.{Answers}
use sonic_edge.Lru.{Lru}
use sonic_edge.Core.Types.{Address, B256}
use sonic_edge.Dex.Pair.{PairAbi, Hashing}
use sonic_edge.Dex.PairCache.{
  PairKey, PairKey-discrete, PairMetadata, CacheEntry, CodeHashEntry, get_cached, insert_cached,
  new, configured,
}
use sonic_edge.Dex.PairCache.Entries.{stored, same_hashes}
use sonic_edge.Dex.PairCache.Stored.{
  EntryHas, AnswerHas, get_cached-EntryHas, get_cached-AnswerHas, insert_cached-EntryHas,
}
use sonic_edge.Dex.Uncached.{Node, hash_or_asked, hash_of, in_factory}
use sonic_edge.Dex.Resolve.{Session, query, cached, remember, remember_code_hash}

module _ (abi : PairAbi) (hashing : Hashing) (node : Node)
    (configured : Address → Option B256) where
  -- A result that is remembered is the one that the node would give.
  abbrev pub IsAnswer : PairKey → Option PairMetadata → Type 0
  IsAnswer key r =
      in_factory abi hashing node configured key.factory key.token0 key.token1 key.stable ≡ ok r

  -- A remembered code hash is the factory's. One that is configured stays.
  abbrev pub IsHash : Address → Option CodeHashEntry → Type 0
  IsHash factory none = configured factory ≡ none
  IsHash factory (some entry) =
      (hash_of abi hashing node configured factory ≡ ok entry.value)
      × ((u64_max ≤ entry.expires_at_ms) ⊎ (configured factory ≡ none))

  module _ (lru : Lru PairKey CacheEntry PairKey-discrete) where
    pub record IsCurrent (s : Session lru) : Type 0 where
      pub entries : All (EntryHas IsAnswer) (stored lru s.cache)
      pub hashes :
          (factory : Address) → IsHash factory (lookup ℕ_discrete factory s.cache.pair_code_hashes)

    pub query-IsCurrent :
        {A : Type 0} (r : Result A) (m : Exec ℕ A)
        → Answers (λ _. Unit {0}) r m
        → Answers IsCurrent r (query m)
    unfolding query
    query-IsCurrent r m q = record {
      at = λ s h. ((q.at s.asked tt).0, record { entries = h.entries; hashes = h.hashes });
    }

    pub remember-IsCurrent :
        (key : PairKey) (value : Option PairMetadata) (now_ms : ℕ)
        → IsAnswer key value
        → Answers IsCurrent (ok tt) (remember key value now_ms)
    unfolding remember insert_cached
    remember-IsCurrent key value now_ms q = record {
      at = λ s h. (
        refl,
        record {
          entries = insert_cached-EntryHas IsAnswer lru s.cache h.entries key now_ms value q;
          hashes = h.hashes;
        },
      );
    }

    pub remember_code_hash-IsCurrent :
        (factory : Address) (entry : CodeHashEntry)
        → IsHash factory (some entry)
        → Answers IsCurrent (ok tt) (remember_code_hash factory entry)
    unfolding remember_code_hash insert
    remember_code_hash-IsCurrent factory entry q = record {
      at = λ s h. (
        refl,
        record {
          entries = h.entries;
          hashes = λ other. elim (ℕ_discrete other factory) [
            | yes same ↦ rw same (rw (lookup-cons_self ℕ_discrete factory entry _) q)
            | no different ↦
                rw
                  (lookup-cons_ne ℕ_discrete other factory entry
                    (remove ℕ_discrete factory s.cache.pair_code_hashes) different)
                  (rw (lookup-remove_ne ℕ_discrete factory other s.cache.pair_code_hashes different)
                    (h.hashes other))
          ];
        },
      );
    }

    pub cached-IsCurrent :
        (key : PairKey) (now_ms : ℕ) (s : Session lru)
        → IsCurrent s
        → IsCurrent (cached key now_ms s).1
          × AnswerHas IsAnswer key (get_cached lru s.cache key now_ms).0
    unfolding cached
    cached-IsCurrent key now_ms s h = (
      record {
        entries = get_cached-EntryHas IsAnswer lru s.cache h.entries key now_ms;
        hashes = λ factory. rw (same_hashes lru s.cache key now_ms) (h.hashes factory);
      },
      get_cached-AnswerHas IsAnswer lru s.cache h.entries key now_ms,
    )

-- A new cache holds the configured hashes, and no pair.
module _ (lru : Lru PairKey CacheEntry PairKey-discrete) (abi : PairAbi) (hashing : Hashing)
    (node : Node) where
  configured_IsHash :
      (look : Address → Option B256) (hashes : List (Address × B256)) (factory : Address)
      → look factory ≡ lookup ℕ_discrete factory hashes
      → IsHash abi hashing node look factory
          (lookup ℕ_discrete factory (map (configured lru) hashes))
  unfolding lookup
  configured_IsHash look [] factory e = e
  configured_IsHash look ((g, hash) ∷ hashes) factory e = elim (ℕ_discrete factory g) [
    | yes same ↦ rw (if_pos _ same) (
      ap (hash_or_asked abi hashing node look factory)
          (e ∙ if_pos (ℕ_discrete factory g) same (some hash) _),
      inl (omega arith),
    )
    | no different ↦ rw (if_neg _ different) (
        configured_IsHash look hashes factory
          (e ∙ if_neg (ℕ_discrete factory g) different (some hash) _))
  ]

  pub new-IsCurrent :
      (capacity positive_ttl_ms negative_ttl_ms asked : ℕ) (hashes : List (Address × B256))
      → IsCurrent abi hashing node
          (λ factory. lookup ℕ_discrete factory hashes)
          lru
          (record {
            cache = new lru capacity positive_ttl_ms negative_ttl_ms hashes;
            asked = asked;
          })
  unfolding new
  new-IsCurrent capacity positive_ttl_ms negative_ttl_ms asked hashes = record {
    entries = rw lru.entries-new tt;
    hashes = λ factory. configured_IsHash (λ g. lookup ℕ_discrete g hashes) hashes factory refl;
  }
