-- ===== src/Core/Dedupe/Check.antt =====
-- One call of `check_and_update`: its verdict, and what it leaves in the cache.
use sonic_edge.Base.{
  ℕ, ◌∙◌, sym, ◌≤◌, ◌<◌, ◌≡◌, inl, inr, ap, Bool, false, Option, none, some, List, [], ◌∷◌, leb,
  not, arith, length, take, lookup, Option-cases, length-take, take_of_length-le, max,
}
use sonic_edge.Base.Assoc.{remove, update, update-promote, remove-promote, length-remove_hit}
use sonic_edge.Base.Words.{saturating_add}
use sonic_edge.Lru.{Lru}
use sonic_edge.Core.Dedupe.{DedupeCache, new, check_and_update}

-- The stored expiry is not past.
abbrev pub is_live : ℕ → Option ℕ → Bool
is_live now_ms none = false
is_live now_ms (some expiry) = leb now_ms expiry

module _ {K : Type 0} {dec : Discrete K} (lru : Lru K ℕ dec) where
  pub record IsBounded (c : DedupeCache lru) : Type 0 where
    pub positive : 0 < lru.cap c.cache
    pub bounded : length (lru.entries c.cache) ≤ lru.cap c.cache

  -- What the cache holds, most recently checked first.
  abbrev pub seen : DedupeCache lru → List (K × ℕ)
  seen c = lru.entries c.cache

  -- The three branches leave the same entries: the key in front with its new expiry.
  module _ (c : lru.Cache) (key : K) (expires_at : ℕ) where
    seen-admit :
        lru.entries (lru.put (lru.get c key).1 key expires_at)
        ≡ take (lru.cap c) ((key, expires_at) ∷ remove dec key (lru.entries c))
    seen-admit = rw (lru.entries-put, lru.cap-get, lru.entries-get, remove-promote)

    seen-refresh :
        {w : ℕ}
        → lookup dec key (lru.entries c) ≡ some w
        → length (lru.entries c) ≤ lru.cap c
        → lru.entries (lru.write (lru.get c key).1 key expires_at)
          ≡ take (lru.cap c) ((key, expires_at) ∷ remove dec key (lru.entries c))
    seen-refresh {w} hit fits =
        lru.entries-write _ key expires_at
        ∙ ap (update dec key expires_at) (lru.entries-get c key)
        ∙ update-promote dec key expires_at w _ hit
        ∙ sym (take_of_length-le _ _ (omega (arith, length-remove_hit dec key _ w hit)))

  pub check_and_update-verdict :
      (c : DedupeCache lru) (key : K) (now_ms : ℕ)
      → (check_and_update lru c key now_ms).0 ≡ not (is_live now_ms (lookup dec key (seen c)))
  unfolding check_and_update
  check_and_update-verdict c key now_ms = ground (arith, lru.get_lem c.cache key)

  pub seen-check_and_update :
      (c : DedupeCache lru) (key : K) (now_ms : ℕ)
      → IsBounded c
      → seen (check_and_update lru c key now_ms).1
        ≡ take (lru.cap c.cache) ((key, saturating_add now_ms c.ttl_ms) ∷ remove dec key (seen c))
  unfolding check_and_update
  seen-check_and_update c key now_ms v = elim (Option-cases (lookup dec key (seen c))) [
    | inl miss ↦ ground (arith, lru.get_lem c.cache key, seen-admit c.cache key expires_at)
    | inr (w, hit) ↦ ground (
      arith,
      lru.get_lem c.cache key,
      seen-admit c.cache key expires_at,
      seen-refresh c.cache key expires_at hit v.bounded,
    )
  ]
    where
      expires_at : ℕ
      expires_at = saturating_add now_ms c.ttl_ms

  module _ (c : DedupeCache lru) (key : K) (now_ms : ℕ) where
    pub cap-check_and_update : lru.cap (check_and_update lru c key now_ms).1.cache ≡ lru.cap c.cache
    unfolding check_and_update
    cap-check_and_update =
        let e = saturating_add now_ms c.ttl_ms in
        ground (
          arith,
          lru.cap-get c.cache key,
          lru.cap-put (lru.get c.cache key).1 key e,
          lru.cap-write (lru.get c.cache key).1 key e,
        )

    pub ttl-check_and_update : (check_and_update lru c key now_ms).1.ttl_ms ≡ c.ttl_ms
    unfolding check_and_update
    ttl-check_and_update = ground arith

    -- No call makes the cache hold more than its capacity.
    pub check_and_update-IsBounded : IsBounded c → IsBounded (check_and_update lru c key now_ms).1
    check_and_update-IsBounded v = record {
      positive = omega (arith, cap-check_and_update);
      bounded = rw (seen-check_and_update c key now_ms v) (
          omega (
            arith,
            cap-check_and_update,
            length-take (lru.cap c.cache)
                ((key, saturating_add now_ms c.ttl_ms) ∷ remove dec key (seen c)),
          ));
    }

  -- A new cache is bounded and empty, whatever capacity the configuration gives.
  pub new-IsBounded :
      (capacity ttl_ms : ℕ)
      → IsBounded (new lru capacity ttl_ms) × (seen (new lru capacity ttl_ms) ≡ [])
  unfolding new
  new-IsBounded capacity ttl_ms = (
    record {
      positive = omega (arith, lru.cap-new (max capacity 1));
      bounded = rw lru.entries-new (omega arith);
    },
    lru.entries-new _,
  )
