-- ===== src/Core/Dedupe.antt =====
-- crates/core/src/dedupe.rs: `DedupeCache`, over the `lru` crate's cache.
pub mod Check
pub mod History
pub mod Window
pub mod Admitted
use sonic_edge.Base.{ℕ, Bool, true, false, none, some, List, [], ◌∷◌, leb, if◌then◌else◌, max}
use sonic_edge.Base.Words.{saturating_add}
use sonic_edge.Lru.{Lru}

pub record DedupeCache {K : Type 0} {dec : Discrete K} (lru : Lru K ℕ dec) : Type 0 where
  pub ttl_ms : ℕ
  pub cache : lru.Cache

module _ {K : Type 0} {dec : Discrete K} (lru : Lru K ℕ dec) where
  unfoldable pub new : ℕ → ℕ → DedupeCache lru
  new capacity ttl_ms = record { ttl_ms = ttl_ms; cache = lru.new (max capacity 1) }

  -- Answers whether the key is new, or its window has passed.
  unfoldable pub check_and_update : DedupeCache lru → K → ℕ → Bool × DedupeCache lru
  check_and_update c key now_ms =
      let (found, cache) = lru.get c.cache key in
      let expires_at = saturating_add now_ms c.ttl_ms in
      let admitted = record c { cache = lru.put cache key expires_at } in
      elim found [
        | none ↦ (true, admitted)
        | some expiry ↦
            if leb now_ms expiry
            then (false, record c { cache = lru.write cache key expires_at })
            else (true, admitted)
      ]

  -- A sequence of calls: the verdicts, in order, and the cache at the end.
  unfoldable pub check_all : DedupeCache lru → List (K × ℕ) → List Bool × DedupeCache lru
  check_all c [] = ([], c)
  check_all c ((key, now_ms) ∷ ops) =
      let (fresh, c') = check_and_update c key now_ms in
      let (rest, c'') = check_all c' ops in (fresh ∷ rest, c'')
