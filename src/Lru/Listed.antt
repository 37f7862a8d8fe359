-- ===== src/Lru/Listed.antt =====
-- A list of entries with a capacity meets the interface, so that the caches can be run.
use sonic_edge.Base.{ℕ, refl, List, [], ◌∷◌, take, lookup}
use sonic_edge.Base.Assoc.{remove, promote, update}
use sonic_edge.Lru.{Lru}

pub record Listed (K V : Type 0) : Type 0 where
  pub items : List (K × V)
  pub capacity : ℕ

abbrev pub listed : {K V : Type 0} (dec : Discrete K) → Lru K V dec
listed {K} {V} dec = record {
  Cache = Listed K V;
  new = λ n. record { items = []; capacity = n };
  get = λ c k. (lookup dec k c.items, record c { items = promote dec k c.items });
  write = λ c k v. record c { items = update dec k v c.items };
  put = λ c k v. record c { items = take c.capacity ((k, v) ∷ remove dec k c.items) };
  pop = λ c k. record c { items = remove dec k c.items };
  entries = λ c. c.items;
  cap = λ c. c.capacity;
  entries-new = λ n. refl;
  get_lem = λ c k. refl;
  entries-get = λ c k. refl;
  entries-write = λ c k v. refl;
  entries-put = λ c k v. refl;
  entries-pop = λ c k. refl;
  cap-new = λ n. refl;
  cap-get = λ c k. refl;
  cap-write = λ c k v. refl;
  cap-put = λ c k v. refl;
  cap-pop = λ c k. refl;
}
