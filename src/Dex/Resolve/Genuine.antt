-- ===== src/Dex/Resolve/Genuine.antt =====
-- The invariant of the remembered pairs, and that reading and remembering keep it.
use sonic_edge.Base.{ℕ, Bool, Option, none, some, List, arith, All, Elem}
use sonic_edge.Exec.{Exec}
use sonic_edge.Exec.Ensures.{Ensures, Any}
use sonic_edge.Lru.{Lru}
use sonic_edge.Core.Types.{Address, B256}
use sonic_edge.Core.Env.{Env}
use sonic_edge.Dex.Pair.{PairAbi, Hashing}
use sonic_edge.Dex.Pair.Packing.{SamePair}
use sonic_edge.Dex.PairCache.{
  PairKey, PairKey-discrete, PairMetadata, CacheEntry, CodeHashEntry, new, new_key,
}
use sonic_edge.Dex.PairCache.Entries.{stored}
use sonic_edge.Dex.PairCache.Stored.{
  EntryHas, AnswerHas, get_cached-EntryHas, get_cached-AnswerHas, insert_cached-EntryHas,
}
use sonic_edge.Dex.Resolve.Origin.{IsPairOf}
use sonic_edge.Dex.Resolve.{Session, query, cached, remember, code_hash_entry, remember_code_hash}

module _ (abi : PairAbi) (hashing : Hashing) (env : Env) where
  -- A pair of the factory for the two tokens, in the order in which they were asked for.
  abbrev pub FromFactory : Address → Address → Address → Option Bool → Option PairMetadata → Type 0
  FromFactory factory a b stable none = Unit
  FromFactory factory a b stable (some m) =
      (x : Address) × (y : Address) × SamePair x y a b
      × IsPairOf abi hashing env factory x y stable m

  abbrev pub FromOneOf :
      List Address → Address → Address → Option Bool → Option PairMetadata → Type 0
  FromOneOf factories a b stable none = Unit
  FromOneOf factories a b stable (some m) =
      Elem m.factory factories × FromFactory m.factory a b stable (some m)

  abbrev pub ForKey : PairKey → Option PairMetadata → Type 0
  ForKey key r = FromFactory key.factory key.token0 key.token1 key.stable r

  abbrev pub CachedOk :
      Address → Address → Address → Option Bool → Option (Option PairMetadata) → Type 0
  CachedOk factory a b stable none = Unit
  CachedOk factory a b stable (some r) = FromFactory factory a b stable r

  SamePair-trans : (x y a b c d : Address) → SamePair x y a b → SamePair a b c d → SamePair x y c d
  SamePair-trans x y a b c d h k = ground arith

  FromFactory-SamePair :
      (factory a b c d : Address) (stable : Option Bool) (r : Option PairMetadata)
      → SamePair a b c d
      → FromFactory factory a b stable r
      → FromFactory factory c d stable r
  FromFactory-SamePair factory a b c d stable none same h = tt
  FromFactory-SamePair factory a b c d stable (some m) same (x, y, k, genuine) =
      (x, y, SamePair-trans x y a b c d k same, genuine)

  -- The tokens of a key are those asked for.
  to_key :
      (factory a b : Address) (stable : Option Bool)
      → let key = new_key factory a b stable in
        SamePair a b key.token0 key.token1 × SamePair key.token0 key.token1 a b
  unfolding new_key
  to_key factory a b stable = (ground arith, ground arith)

  into_key :
      (factory a b : Address) (stable : Option Bool) (r : Option PairMetadata)
      → FromFactory factory a b stable r
      → ForKey (new_key factory a b stable) r
  unfolding new_key
  into_key factory a b stable r h =
      FromFactory-SamePair factory a b _ _ stable r (to_key factory a b stable).0 h

  from_key :
      (factory a b : Address) (stable : Option Bool) (r : Option PairMetadata)
      → ForKey (new_key factory a b stable) r
      → FromFactory factory a b stable r
  unfolding new_key
  from_key factory a b stable r h =
      FromFactory-SamePair factory _ _ a b stable r (to_key factory a b stable).1 h

  module _ (lru : Lru PairKey CacheEntry PairKey-discrete) where
    -- Every remembered pair is one of its key's factory, for the key's tokens.
    pub record IsGenuine (s : Session lru) : Type 0 where
      pub entries : All (EntryHas ForKey) (stored lru s.cache)

    pub query-IsGenuine :
        {A : Type 0} {Q : A → Type 0} (m : Exec ℕ A)
        → Ensures Any Q m
        → Ensures IsGenuine Q (query m)
    unfolding query
    query-IsGenuine m q = record {
      at = λ s h. (record { entries = h.entries }, (q.at s.asked tt).1);
    }

    pub cached-IsGenuine :
        (factory a b : Address) (stable : Option Bool) (now_ms : ℕ)
        → Ensures IsGenuine
            (CachedOk factory a b stable)
            (cached (new_key factory a b stable) now_ms)
    unfolding cached
    cached-IsGenuine factory a b stable now_ms = record {
      at = λ s h. (
        record { entries = get_cached-EntryHas ForKey lru s.cache h.entries key now_ms },
        from_answer _ (get_cached-AnswerHas ForKey lru s.cache h.entries key now_ms),
      );
    }
      where
        key : PairKey
        key = new_key factory a b stable

        from_answer :
            (hit : Option (Option PairMetadata))
            → AnswerHas ForKey key hit
            → CachedOk factory a b stable hit
        from_answer none h = tt
        from_answer (some r) h = from_key factory a b stable r h

    pub remember-IsGenuine :
        (factory a b : Address) (stable : Option Bool) (value : Option PairMetadata) (now_ms : ℕ)
        → FromFactory factory a b stable value
        → Ensures IsGenuine Any (remember (new_key factory a b stable) value now_ms)
    unfolding remember
    remember-IsGenuine factory a b stable value now_ms q = record {
      at = λ s h. (
        record {
          entries =
              insert_cached-EntryHas ForKey lru s.cache h.entries (new_key factory a b stable)
                now_ms value (into_key factory a b stable value q);
        },
        tt,
      );
    }

    -- Reading and remembering a code hash does not touch the remembered pairs.
    pub entry-IsGenuine : (factory : Address) → Ensures IsGenuine Any (code_hash_entry factory)
    unfolding code_hash_entry
    entry-IsGenuine factory = record { at = λ s h. (h, tt) }

    pub remember_code_hash-IsGenuine :
        (factory : Address) (entry : CodeHashEntry)
        → Ensures IsGenuine Any (remember_code_hash factory entry)
    unfolding remember_code_hash
    remember_code_hash-IsGenuine factory entry = record {
      at = λ s h. (record { entries = h.entries }, tt);
    }

    -- A new cache remembers no pair.
    pub new-IsGenuine :
        (capacity positive_ttl_ms negative_ttl_ms asked : ℕ) (hashes : List (Address × B256))
        → IsGenuine (record {
          cache = new lru capacity positive_ttl_ms negative_ttl_ms hashes;
          asked = asked;
        })
    unfolding new
    new-IsGenuine capacity positive_ttl_ms negative_ttl_ms asked hashes = record {
      entries = rw lru.entries-new tt;
    }
