-- ===== src/Dex/PairCache/Stored.antt =====
-- What holds of every stored entry, reading and writing the cache keep, and an answer has it.
use sonic_edge.Base.{
  ℕ, inl, inr, Bool, true, false, Option, none, some, List, lookup, All, All-take, Option-cases,
  is_some, leb, if◌then◌else◌,
}
use sonic_edge.Base.Assoc.{remove, promote, All-remove, All-lookup}
use sonic_edge.Lru.{Lru}
use sonic_edge.Dex.PairCache.{
  PairKey, PairKey-discrete, PairMetadata, CacheEntry, PairMetadataCache, get_cached, insert_cached,
}
use sonic_edge.Dex.PairCache.Entries.{
  stored, answer_at, get_cached-answer, stored-get_cached, stored-insert_cached,
}

module _ (Q : PairKey → Option PairMetadata → Type 0) where
  abbrev pub EntryHas : PairKey × CacheEntry → Type 0
  EntryHas (key, entry) = Q key entry.value

  abbrev pub AnswerHas : PairKey → Option (Option PairMetadata) → Type 0
  AnswerHas key none = Unit
  AnswerHas key (some r) = Q key r

  promote-EntryHas :
      (key : PairKey) (l : List (PairKey × CacheEntry))
      → All EntryHas l
      → All EntryHas (promote PairKey-discrete key l)
  unfolding promote
  promote-EntryHas key l h = elim (Option-cases (lookup PairKey-discrete key l)) [
    | inl miss ↦ rw (miss, promote) h
    | inr (e, hit) ↦
        rw (hit, promote)
          (
            All-lookup PairKey-discrete EntryHas key l e h hit,
            All-remove PairKey-discrete EntryHas key l h,
          )
  ]

  touched-EntryHas :
      (b : Bool) (key : PairKey) (l : List (PairKey × CacheEntry))
      → All EntryHas l
      → All EntryHas (if b then promote PairKey-discrete key l else remove PairKey-discrete key l)
  touched-EntryHas true key l h = promote-EntryHas key l h
  touched-EntryHas false key l h = All-remove PairKey-discrete EntryHas key l h

  answer_at-AnswerHas :
      (key : PairKey) (now_ms : ℕ) (l : List (PairKey × CacheEntry))
      → All EntryHas l
      → AnswerHas key (answer_at now_ms (lookup PairKey-discrete key l))
  answer_at-AnswerHas key now_ms l h = elim (Option-cases (lookup PairKey-discrete key l)) [
    | inl miss ↦ rw miss tt
    | inr (e, hit) ↦ rw hit (
        live e.value (leb now_ms e.expires_at_ms)
          (All-lookup PairKey-discrete EntryHas key l e h hit))
  ]
    where
      live :
          (r : Option PairMetadata) (b : Bool)
          → Q key r
          → AnswerHas key (if b then some r else none)
      live r true q = q
      live r false q = tt

  module _ (lru : Lru PairKey CacheEntry PairKey-discrete) (c : PairMetadataCache lru)
      (h : All EntryHas (stored lru c)) (key : PairKey) (now_ms : ℕ) where
    pub get_cached-EntryHas : All EntryHas (stored lru (get_cached lru c key now_ms).1)
    get_cached-EntryHas =
        rw (stored-get_cached lru c key now_ms)
          (touched-EntryHas (is_some (get_cached lru c key now_ms).0) key _ h)

    pub get_cached-AnswerHas : AnswerHas key (get_cached lru c key now_ms).0
    get_cached-AnswerHas =
        rw (get_cached-answer lru c key now_ms) (answer_at-AnswerHas key now_ms (stored lru c) h)

    pub insert_cached-EntryHas :
        (value : Option PairMetadata)
        → Q key value
        → All EntryHas (stored lru (insert_cached lru c key value now_ms))
    insert_cached-EntryHas value q =
        rw (stored-insert_cached lru c key value now_ms)
          (All-take EntryHas _ _ (q, All-remove PairKey-discrete EntryHas key _ h))
