-- ===== src/Dex/Resolve/CodeHashes.antt =====
-- Code hashes of factories: configured ones, and how long an answer of the node is kept.
use sonic_edge.Base.{
  ℕ, suc, ◌%◌, ◌^◌, get_or, ◌≡◌, subst, refl, inl, inr, Option, none, some, List, leb, le→leb,
  Bool-cases, is_some, arith, lookup, ℕ_discrete, if◌then◌else◌,
}
use sonic_edge.Base.Assoc.{insert, remove, lookup-cons_self}
use sonic_edge.Base.Words.{saturating_add, u64_max}
use sonic_edge.Exec.{ok, Exec, pure, ◌>>=◌, ◌>>◌}
use sonic_edge.Exec.Ensures.{Ensures, Any, Ensures-Any, After, Returns, Returns-bind}
use sonic_edge.Lru.{Lru}
use sonic_edge.Core.Types.{Address, B256}
use sonic_edge.Core.Env.{Env, now_ms}
use sonic_edge.Dex.Pair.{PairAbi, Hashing}
use sonic_edge.Dex.PairCache.{
  PairKey, PairKey-discrete, CacheEntry, CodeHashEntry, code_hash_positive_ttl_ms,
  code_hash_negative_ttl_ms,
}
use sonic_edge.Dex.Resolve.{
  Session, query, code_hash_entry, remember_code_hash, fetch_code_hash, code_hash_or_fetch,
  fetched_entry, code_hash_for_factory,
}

module _ (lru : Lru PairKey CacheEntry PairKey-discrete) (abi : PairAbi) (hashing : Hashing)
    (env : Env) where
  -- A configured code hash is used whatever the clock shows, and the node is not asked for it: the
  -- clock is the only question, and the cache stays as it is.
  pub configured_hash :
      (factory : Address) (hash : B256) (s : Session lru)
      → lookup ℕ_discrete factory s.cache.pair_code_hashes
        ≡ some (record { value = some hash; expires_at_ms = u64_max })
      → code_hash_for_factory lru abi hashing env factory s
        ≡ (ok (some hash), record s { asked = suc s.asked })
  unfolding code_hash_for_factory code_hash_or_fetch code_hash_entry query now_ms ◌>>=◌
  configured_hash factory hash s found =
      rw found
        (rw (le→leb (get_or (env.system_time s.asked) 0 % 2 ^ 64) u64_max (omega arith)) refl)

  abbrev Always : Session lru → Type 0
  Always s = Unit

  lookup-insert_self :
      (factory : Address) (entry : CodeHashEntry) (l : List (Address × CodeHashEntry))
      → lookup ℕ_discrete factory (insert ℕ_discrete factory entry l) ≡ some entry
  unfolding insert
  lookup-insert_self factory entry l =
      lookup-cons_self ℕ_discrete factory entry (remove ℕ_discrete factory l)

  -- What `fetch_code_hash` leaves when it returns: its answer, with the expiry of its kind.
  kept_for : Option B256 → ℕ
  kept_for fetched =
      if is_some fetched then code_hash_positive_ttl_ms else code_hash_negative_ttl_ms

  -- The hash table holds the answer until its time to live has passed.
  abbrev HoldsAnswer : Address → ℕ → Option B256 → Session lru → Type 0
  HoldsAnswer factory now r s =
      lookup ℕ_discrete factory s.cache.pair_code_hashes
      ≡ some (record { value = r; expires_at_ms = saturating_add now (kept_for r) })

  remembered_answer :
      (factory : Address) (now : ℕ) (fetched : Option B256)
      → Returns Always (HoldsAnswer factory now) (
          remember_code_hash factory (fetched_entry lru abi hashing env fetched now)
          >> pure fetched)
  unfolding remember_code_hash ◌>>=◌ kept_for
  remembered_answer factory now none = record {
    at = λ s h. lookup-insert_self factory _ s.cache.pair_code_hashes;
  }
  remembered_answer factory now (some hash) = record {
    at = λ s h. lookup-insert_self factory _ s.cache.pair_code_hashes;
  }

  anything : {A : Type 0} (m : Exec (Session lru) A) → Ensures Always Any m
  anything m = record { at = λ s h. (tt, ((Ensures-Any m).at s tt).1) }

  fetch-HoldsAnswer :
      (factory : Address) (now : ℕ)
      → Returns Always (HoldsAnswer factory now) (fetch_code_hash lru abi hashing env factory now)
  unfolding fetch_code_hash
  fetch-HoldsAnswer factory now =
      Returns-bind _ _ (anything _) λ fetched. remembered_answer factory now fetched

  -- What the node answered about the code hash of a factory, a hash or none, is used again until
  -- its time to live has passed, and is asked for again after that.
  pub code_hash_again :
      (factory : Address) (now later : ℕ) (s s' : Session lru) (r : Option B256)
      → fetch_code_hash lru abi hashing env factory now s ≡ (ok r, s')
      → code_hash_or_fetch lru abi hashing env factory later
          (lookup ℕ_discrete factory s'.cache.pair_code_hashes)
          s'
        ≡ (if leb later (
              saturating_add now
                (if is_some r then code_hash_positive_ttl_ms else code_hash_negative_ttl_ms))
            then (ok r, s')
            else fetch_code_hash lru abi hashing env factory later s')
  unfolding code_hash_or_fetch pure kept_for
  code_hash_again factory now later s s' r first =
      rw (subst (After (HoldsAnswer factory now)) first ((fetch-HoldsAnswer factory now).at s tt))
        (elim (Bool-cases (
          leb later (
            saturating_add now
              (if is_some r then code_hash_positive_ttl_ms else code_hash_negative_ttl_ms)))) [
                | inl live ↦ rw live
                | inr late ↦ rw late
              ])
