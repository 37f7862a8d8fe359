-- ===== src/Lru.antt =====
-- The `lru` crate's `LruCache`, which the program's two caches are built on and whose code is not
-- in the repository: the methods that are called, with their documented behaviour. `entries` is
-- `LruCache::iter`, most recently used first, and `cap` is `LruCache::cap`.
pub mod Listed
use sonic_edge.Base.{ℕ, ◌≡◌, Option, List, [], ◌∷◌, take, lookup}
use sonic_edge.Base.Assoc.{remove, promote, update}

pub record Lru (K V : Type 0) (dec : Discrete K) : Type 1 where
  pub Cache : Type 0
  pub new : ℕ → Cache
  -- `get` and `get_mut`: a hit becomes the most recently used entry.
  pub get : Cache → K → Option V × Cache
  -- An assignment through the reference that `get_mut` returned.
  pub write : Cache → K → V → Cache
  pub put : Cache → K → V → Cache
  pub pop : Cache → K → Cache
  pub entries : Cache → List (K × V)
  pub cap : Cache → ℕ
  pub entries-new : (n : ℕ) → entries (new n) ≡ []
  pub get_lem : (c : Cache) (k : K) → (get c k).0 ≡ lookup dec k (entries c)
  pub entries-get : (c : Cache) (k : K) → entries (get c k).1 ≡ promote dec k (entries c)
  pub entries-write :
      (c : Cache) (k : K) (v : V) → entries (write c k v) ≡ update dec k v (entries c)
  -- Beyond the capacity the least recently used entry is dropped.
  pub entries-put :
      (c : Cache) (k : K) (v : V)
      → entries (put c k v) ≡ take (cap c) ((k, v) ∷ remove dec k (entries c))
  pub entries-pop : (c : Cache) (k : K) → entries (pop c k) ≡ remove dec k (entries c)
  pub cap-new : (n : ℕ) → cap (new n) ≡ n
  pub cap-get : (c : Cache) (k : K) → cap (get c k).1 ≡ cap c
  pub cap-write : (c : Cache) (k : K) (v : V) → cap (write c k v) ≡ cap c
  pub cap-put : (c : Cache) (k : K) (v : V) → cap (put c k v) ≡ cap c
  pub cap-pop : (c : Cache) (k : K) → cap (pop c k) ≡ cap c
