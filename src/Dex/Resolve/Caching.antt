-- ===== src/Dex/Resolve/Caching.antt =====
-- What a resolution leaves in the cache, and what a later one finds there.
use sonic_edge.Base.{
  ℕ, ◌≤◌, ◌<◌, ◌≡◌, ◌∙◌, sym, subst, refl, inr, Bool, Option, none, some, [], ◌∷◌, le→leb, is_some,
  arith, if◌then◌else◌,
}
use sonic_edge.Base.Words.{saturating_add}
use sonic_edge.Exec.{Result, ok, err, panic, continue, pure, ◌>>=◌}
use sonic_edge.Exec.Ensures.{After, Returns, Returns-bind}
use sonic_edge.Lru.{Lru}
use sonic_edge.Core.Types.{Address}
use sonic_edge.Core.Env.{Env}
use sonic_edge.Dex.Pair.{PairAbi, Hashing}
use sonic_edge.Dex.PairCache.{
  PairKey, PairKey-discrete, PairMetadata, CacheEntry, PairMetadataCache, new_key, get_cached,
  insert_cached,
}
use sonic_edge.Dex.PairCache.Keys.{new_key_iff}
use sonic_edge.Dex.PairCache.Entries.{
  get_cached-insert_cached, IsSized, get_cached-IsSized, insert_cached-IsSized,
}
use sonic_edge.Dex.Resolve.{
  Session, cached, remember, remembered, resolve_answer, resolve_uncached, resolve_factory,
  resolve_with_now,
}
use sonic_edge.Dex.Resolve.Keeps.{IsKept, query-kept, create2-kept, ask_factory-kept}

module _ (lru : Lru PairKey CacheEntry PairKey-discrete) (cap positive negative : ℕ) where
  IsSized-kept : IsKept lru (IsSized lru cap positive negative)
  IsSized-kept = record {
    read = λ c key now h. get_cached-IsSized lru c key now h;
    stored = λ c key value now h. insert_cached-IsSized lru c key now value h;
    hashed = λ c hashes h. record {
      capacity = h.capacity;
      bounded = h.bounded;
      positive_ttl = h.positive_ttl;
      negative_ttl = h.negative_ttl;
    };
  }

  module _ (abi : PairAbi) (hashing : Hashing) (env : Env) (a b : Address) (stable : Option Bool)
      (factory : Address) (now : ℕ) where
    -- The last thing done was to store the result.
    abbrev JustStored : Option PairMetadata → Session lru → Type 0
    JustStored r s =
        (c : PairMetadataCache lru) × (s.cache
          ≡ insert_cached lru c (new_key factory a b stable) r now)
        × IsSized lru cap positive negative c

    abbrev Sized : Session lru → Type 0
    Sized s = IsSized lru cap positive negative s.cache

    remembered-JustStored :
        (result : Option PairMetadata)
        → Returns Sized JustStored (remembered lru abi hashing env a b stable now factory result)
    unfolding remembered remember ◌>>=◌
    remembered-JustStored result = record { at = λ s h. (s.cache, refl, h) }

    resolve_answer-JustStored :
        (pair : Option Address)
        → Returns Sized JustStored (resolve_answer lru abi hashing env a b stable now factory pair)
    unfolding resolve_answer
    resolve_answer-JustStored none =
        Returns-bind _ _ (create2-kept lru IsSized-kept abi hashing env factory a b stable)
          (λ found. remembered-JustStored found)
    resolve_answer-JustStored (some pair) =
        Returns-bind _ _ (query-kept lru IsSized-kept _) (λ tokens. remembered-JustStored _)

    resolve_missed-JustStored :
        Returns Sized JustStored (resolve_uncached lru abi hashing env a b stable now factory none)
    unfolding resolve_uncached
    resolve_missed-JustStored =
        Returns-bind _ _ (ask_factory-kept lru IsSized-kept abi hashing env a b stable now factory)
          (λ pair. resolve_answer-JustStored pair)

    -- A session that has just stored the result answers it without a question.
    hit_after :
        (later : ℕ) (r : Option PairMetadata) (s : Session lru)
        → 0 < cap
        → JustStored r s
        → later ≤ saturating_add now (if is_some r then positive else negative)
        → (get_cached lru s.cache (new_key factory a b stable) later).0 ≡ some r
    hit_after later r s room (c, same, h) within = rw same (
        get_cached-insert_cached lru c (new_key factory a b stable) r now later
          (omega (arith, h.capacity))
        ∙ rw (h.positive_ttl, h.negative_ttl) (rw (le→leb _ _ within)))

module _ (lru : Lru PairKey CacheEntry PairKey-discrete) (abi : PairAbi) (hashing : Hashing)
    (env : Env) (stable : Option Bool) where
  -- With one factory the loop is its body.
  loop_end :
      (a b : Address) (now : ℕ) (r : Result (Option PairMetadata)) (s : Session lru)
      → continue r
          (λ found. elim found [
            | some m ↦ pure (some m)
            | none ↦ resolve_with_now lru abi hashing env a b stable now []
          ])
          s
        ≡ (r, s)
  unfolding resolve_with_now pure
  loop_end a b now (ok none) s = refl
  loop_end a b now (ok (some m)) s = refl
  loop_end a b now (err e) s = refl
  loop_end a b now panic s = refl

  resolve_single :
      (factory a b : Address) (now : ℕ) (s : Session lru)
      → let key = new_key factory a b stable in
        resolve_with_now lru abi hashing env a b stable now (factory ∷ []) s
        ≡ resolve_uncached lru abi hashing env a b stable now factory
            (get_cached lru s.cache key now).0
            (record s { cache = (get_cached lru s.cache key now).1 })
  unfolding resolve_with_now resolve_factory cached ◌>>=◌
  resolve_single factory a b now s = loop_end a b now _ _

  -- A remembered result, positive or negative, is answered without a question to the node or to the
  -- clock.
  pub resolve_hit :
      (factory a b : Address) (now : ℕ) (s : Session lru) (r : Option PairMetadata)
      → (get_cached lru s.cache (new_key factory a b stable) now).0 ≡ some r
      → ((resolve_with_now lru abi hashing env a b stable now (factory ∷ []) s).0 ≡ ok r)
        × ((resolve_with_now lru abi hashing env a b stable now (factory ∷ []) s).1.asked ≡ s.asked)
  unfolding resolve_uncached pure
  resolve_hit factory a b now s r hit = rw (resolve_single factory a b now s) (rw hit (refl, refl))

  -- In a sized cache of positive capacity, what was resolved for one factory and not yet remembered
  -- is answered again, with the tokens in either order and without any question, up to the time to
  -- live of the result: the positive one for a pair, the negative one for no pair.
  pub resolve_again :
      (cap positive negative : ℕ) (factory a b : Address) (now later : ℕ) (s s' : Session lru)
      (r : Option PairMetadata)
      → 0 < cap
      → IsSized lru cap positive negative s.cache
      → (get_cached lru s.cache (new_key factory a b stable) now).0 ≡ none
      → resolve_with_now lru abi hashing env a b stable now (factory ∷ []) s ≡ (ok r, s')
      → later ≤ saturating_add now (if is_some r then positive else negative)
      → ((resolve_with_now lru abi hashing env b a stable later (factory ∷ []) s').0 ≡ ok r)
        × ((resolve_with_now lru abi hashing env b a stable later (factory ∷ []) s').1.asked
            ≡ s'.asked)
  resolve_again cap positive negative factory a b now later s s' r room h missed first within =
      resolve_hit factory b a later s' r (
        rw same_key (
          hit_after lru cap positive negative abi hashing env a b stable factory now later r s' room
            stored_now within))
    where
      same_key : new_key factory b a stable ≡ new_key factory a b stable
      same_key =
          (new_key_iff b a a b factory factory stable stable).1 (refl, inr (refl, refl), refl)

      key : PairKey
      key = new_key factory a b stable

      read : Session lru
      read = record s { cache = (get_cached lru s.cache key now).1 }

      rest : resolve_uncached lru abi hashing env a b stable now factory none read ≡ (ok r, s')
      rest = sym (rw missed at (resolve_single factory a b now s)) ∙ first

      stored_now : JustStored lru cap positive negative abi hashing env a b stable factory now r s'
      stored_now =
          subst
            (After (JustStored lru cap positive negative abi hashing env a b stable factory now))
            rest
            ((resolve_missed-JustStored lru cap positive negative abi hashing env a b stable factory
                now).at
              read (get_cached-IsSized lru s.cache key now h))
