-- ===== src/Dex/PairCache/Entries.antt =====
-- One read and one write of the cache.
use sonic_edge.Base.{
  ℕ, suc, ◌-◌, ◌≤◌, ◌<◌, ◌≡◌, ◌≢◌, ◌∙◌, sym, inl, inr, ap, Bool, true, false, Option, none, some,
  List, ◌∷◌, leb, is_some, arith, length, take, lookup, if◌then◌else◌, Option-cases, length-take,
  take_of_length-le,
}
use sonic_edge.Base.Assoc.{
  remove, promote, lookup-cons_self, lookup-cons_ne, lookup-remove_ne, remove-promote,
  length-remove-le, length-remove_hit,
}
use sonic_edge.Base.Words.{saturating_add}
use sonic_edge.Lru.{Lru}
use sonic_edge.Dex.PairCache.{
  PairKey, PairKey-discrete, PairMetadata, CacheEntry, PairMetadataCache, get_cached, insert_cached,
}

-- How long a result is kept.
abbrev pub ttl_of :
    {lru : Lru PairKey CacheEntry PairKey-discrete}
    → PairMetadataCache lru
    → Option PairMetadata
    → ℕ
ttl_of c value = if is_some value then c.positive_ttl_ms else c.negative_ttl_ms

-- What a lookup in the stored entries answers at a time.
abbrev pub answer_at : ℕ → Option CacheEntry → Option (Option PairMetadata)
answer_at now_ms none = none
answer_at now_ms (some entry) = if leb now_ms entry.expires_at_ms then some entry.value else none

module _ (lru : Lru PairKey CacheEntry PairKey-discrete) where
  abbrev pub stored : PairMetadataCache lru → List (PairKey × CacheEntry)
  stored c = lru.entries c.entries

  pub get_cached-answer :
      (c : PairMetadataCache lru) (key : PairKey) (now_ms : ℕ)
      → (get_cached lru c key now_ms).0 ≡ answer_at now_ms (lookup PairKey-discrete key (stored c))
  unfolding get_cached
  get_cached-answer c key now_ms = ground (arith, lru.get_lem c.entries key)

  pub stored-insert_cached :
      (c : PairMetadataCache lru) (key : PairKey) (value : Option PairMetadata) (now_ms : ℕ)
      → stored (insert_cached lru c key value now_ms)
        ≡ take (lru.cap c.entries) (
            (key, record { value = value; expires_at_ms = saturating_add now_ms (ttl_of c value) })
            ∷ remove PairKey-discrete key (stored c))
  unfolding insert_cached
  stored-insert_cached c key value now_ms = lru.entries-put _ _ _

  lookup-insert_cached :
      (c : PairMetadataCache lru) (key : PairKey) (value : Option PairMetadata) (now_ms : ℕ)
      → 0 < lru.cap c.entries
      → lookup PairKey-discrete key (stored (insert_cached lru c key value now_ms))
        ≡ some (record { value = value; expires_at_ms = saturating_add now_ms (ttl_of c value) })
  lookup-insert_cached c key value now_ms room =
      let e : lru.cap c.entries ≡ suc (lru.cap c.entries - 1) = omega arith in
      rw (stored-insert_cached c key value now_ms)
        (rw e (lookup-cons_self PairKey-discrete key _ _))

  -- In a cache of positive capacity, a result that was just stored, positive or negative, is
  -- answered up to its time to live and not after it.
  pub get_cached-insert_cached :
      (c : PairMetadataCache lru) (key : PairKey) (value : Option PairMetadata)
      (now_ms later_ms : ℕ)
      → 0 < lru.cap c.entries
      → (get_cached lru (insert_cached lru c key value now_ms) key later_ms).0
        ≡ (if leb later_ms (saturating_add now_ms (ttl_of c value)) then some value else none)
  get_cached-insert_cached c key value now_ms later_ms room =
      get_cached-answer _ key later_ms ∙ rw (lookup-insert_cached c key value now_ms room)

  -- Storing a result does not change what is answered for another key, while there is room.
  pub get_cached-insert_cached_ne :
      (c : PairMetadataCache lru) (key other : PairKey) (value : Option PairMetadata)
      (now_ms later_ms : ℕ)
      → other ≢ key
      → length (stored c) < lru.cap c.entries
      → (get_cached lru (insert_cached lru c key value now_ms) other later_ms).0
        ≡ (get_cached lru c other later_ms).0
  get_cached-insert_cached_ne c key other value now_ms later_ms different room =
      get_cached-answer _ other later_ms
      ∙ rw (stored-insert_cached c key value now_ms) (
          rw
            (take_of_length-le (lru.cap c.entries)
              ((
                key,
                record { value = value; expires_at_ms = saturating_add now_ms (ttl_of c value) },
              )
                ∷ remove PairKey-discrete key (stored c))
              (omega (arith, length-remove-le PairKey-discrete key (stored c))))
            (ap (answer_at later_ms) (
              lookup-cons_ne PairKey-discrete other key _ _ different
              ∙ lookup-remove_ne PairKey-discrete key other (stored c) different)))
      ∙ sym (get_cached-answer c other later_ms)

  -- A read moves a live entry to the front, and drops an expired one.
  pub stored-get_cached :
      (c : PairMetadataCache lru) (key : PairKey) (now_ms : ℕ)
      → stored (get_cached lru c key now_ms).1 ≡ (
          if is_some (get_cached lru c key now_ms).0
          then promote PairKey-discrete key (stored c)
          else remove PairKey-discrete key (stored c))
  unfolding get_cached
  stored-get_cached c key now_ms = ground (
    arith,
    lru.get_lem c.entries key,
    lru.entries-get c.entries key,
    lru.entries-pop (lru.get c.entries key).1 key,
    remove-promote PairKey-discrete key (stored c),
  )

  pub same_hashes :
      (c : PairMetadataCache lru) (key : PairKey) (now_ms : ℕ)
      → (get_cached lru c key now_ms).1.pair_code_hashes ≡ c.pair_code_hashes
  unfolding get_cached
  same_hashes c key now_ms = ground arith

  -- Neither call changes the capacity or the times to live.
  pub same_settings :
      (c : PairMetadataCache lru) (key : PairKey) (value : Option PairMetadata) (now_ms : ℕ)
      → (lru.cap (get_cached lru c key now_ms).1.entries ≡ lru.cap c.entries)
        × (lru.cap (insert_cached lru c key value now_ms).entries ≡ lru.cap c.entries)
  unfolding get_cached insert_cached
  same_settings c key value now_ms = (
    ground (arith, lru.cap-get c.entries key, lru.cap-pop (lru.get c.entries key).1 key),
    lru.cap-put _ _ _,
  )

  -- Never more remembered pairs than the capacity, and the capacity and the times to live stay.
  pub record IsSized (cap positive negative : ℕ) (c : PairMetadataCache lru) : Type 0 where
    pub capacity : lru.cap c.entries ≡ cap
    pub bounded : length (stored c) ≤ cap
    pub positive_ttl : c.positive_ttl_ms ≡ positive
    pub negative_ttl : c.negative_ttl_ms ≡ negative

  length-promote :
      (key : PairKey) (l : List (PairKey × CacheEntry))
      → length (promote PairKey-discrete key l) ≡ length l
  unfolding promote
  length-promote key l = elim (Option-cases (lookup PairKey-discrete key l)) [
    | inl miss ↦ rw (miss, promote)
    | inr (e, hit) ↦
        rw (hit, promote) (omega (arith, length-remove_hit PairKey-discrete key l e hit))
  ]

  length-get_cached-le :
      (c : PairMetadataCache lru) (key : PairKey) (now_ms : ℕ)
      → length (stored (get_cached lru c key now_ms).1) ≤ length (stored c)
  length-get_cached-le c key now_ms =
      rw (stored-get_cached c key now_ms) (shorter (is_some (get_cached lru c key now_ms).0))
    where
      shorter :
          (b : Bool)
          → length (
              if b
              then promote PairKey-discrete key (stored c)
              else remove PairKey-discrete key (stored c))
            ≤ length (stored c)
      shorter true = omega (arith, length-promote key (stored c))
      shorter false = length-remove-le PairKey-discrete key (stored c)

  same_ttls :
      (c : PairMetadataCache lru) (key : PairKey) (now_ms : ℕ)
      → ((get_cached lru c key now_ms).1.positive_ttl_ms ≡ c.positive_ttl_ms)
        × ((get_cached lru c key now_ms).1.negative_ttl_ms ≡ c.negative_ttl_ms)
  unfolding get_cached
  same_ttls c key now_ms = ground arith

  length-take-le : (n : ℕ) (l : List (PairKey × CacheEntry)) → length (take n l) ≤ n
  length-take-le n l = omega (arith, length-take n l)

  module _ {cap positive negative : ℕ} (c : PairMetadataCache lru) (key : PairKey)
      (now_ms : ℕ) where
    pub get_cached-IsSized :
        IsSized cap positive negative c
        → IsSized cap positive negative (get_cached lru c key now_ms).1
    get_cached-IsSized h = record {
      capacity = (same_settings c key none now_ms).0 ∙ h.capacity;
      bounded = omega (arith, length-get_cached-le c key now_ms, h.bounded);
      positive_ttl = (same_ttls c key now_ms).0 ∙ h.positive_ttl;
      negative_ttl = (same_ttls c key now_ms).1 ∙ h.negative_ttl;
    }

    pub insert_cached-IsSized :
        (value : Option PairMetadata)
        → IsSized cap positive negative c
        → IsSized cap positive negative (insert_cached lru c key value now_ms)
    insert_cached-IsSized value h = record {
      capacity = (same_settings c key value now_ms).1 ∙ h.capacity;
      bounded = rw (stored-insert_cached c key value now_ms) (rw h.capacity (length-take-le cap _));
      positive_ttl = unfold insert_cached in h.positive_ttl;
      negative_ttl = unfold insert_cached in h.negative_ttl;
    }
