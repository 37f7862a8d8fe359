-- ===== src/Tests/Stationary.antt =====
-- Resolutions at concrete inputs, at a node whose answers do not change.
use sonic_edge.Base.{◌≡◌, refl, Option, none, some, [], ◌∷◌, lookup, ℕ_discrete}
use sonic_edge.Exec.{ok}
use sonic_edge.Lru.{Lru}
use sonic_edge.Lru.Listed.{listed}
use sonic_edge.Core.Types.{Address, B256}
use sonic_edge.Dex.PairCache.{PairKey, PairKey-discrete, CacheEntry, new}
use sonic_edge.Dex.Uncached.{Node, IsSteady, in_factory, uncached}
use sonic_edge.Dex.Uncached.Order.{IsSymmetric}
use sonic_edge.Dex.Resolve.{Session, resolve}
use sonic_edge.Dex.Resolve.Current.{IsCurrent, new-IsCurrent}
use sonic_edge.Dex.Resolve.Steady.{resolve-eq-uncached}
use sonic_edge.Tests.Outside.{a_pair_abi, a_hashing, an_env}

abbrev pair_lru : Lru PairKey CacheEntry PairKey-discrete
pair_lru = listed PairKey-discrete

abbrev a_node : Node
a_node = record { call = λ to input. an_env.call 0 to input; get_code_at = λ a. ok (1 ∷ []) }

a_node-IsSteady : IsSteady an_env a_node
a_node-IsSteady = record { call_lem = λ n to input. refl; get_code_at_lem = λ n a. refl }

-- The hash of factory 91 is configured.
abbrev configured : Address → Option B256
configured factory = lookup ℕ_discrete factory ((91, 700) ∷ [])

a_node-IsSymmetric : IsSymmetric a_pair_abi a_hashing a_node configured
a_node-IsSymmetric = record {
  known_pair_comm = λ factory a b stable. elim stable [ some flag ↦ refl | none ↦ refl ];
}

abbrev a_session : Session pair_lru
a_session = record { cache = new pair_lru 2 5000 300 ((91, 700) ∷ []); asked = 0 }

-- Without caches, the pair is that of factory 90.
uncached_run :
    uncached a_pair_abi a_hashing a_node configured (90 ∷ []) 50 30 none
    ≡ ok (some (record { factory = 90; pair = 110; token0 = 30; token1 = 50 }))
unfolding uncached in_factory
uncached_run = refl

resolve-eq-uncached_example :
    ((resolve pair_lru a_pair_abi a_hashing an_env (90 ∷ []) 50 30 none a_session).0
      ≡ uncached a_pair_abi a_hashing a_node configured (90 ∷ []) 50 30 none)
    × IsCurrent a_pair_abi a_hashing a_node configured pair_lru
        (resolve pair_lru a_pair_abi a_hashing an_env (90 ∷ []) 50 30 none a_session).1
resolve-eq-uncached_example =
    resolve-eq-uncached pair_lru a_pair_abi a_hashing an_env a_node configured a_node-IsSteady
      a_node-IsSymmetric (90 ∷ []) 50 30 none a_session
      (new-IsCurrent pair_lru a_pair_abi a_hashing a_node 2 5000 300 0 ((91, 700) ∷ []))
