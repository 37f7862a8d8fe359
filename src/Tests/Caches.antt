-- ===== src/Tests/Caches.antt =====
-- The caches at concrete inputs.
use sonic_edge.Base.{
  ℕ, ◌≡◌, ◌↔◌, refl, ap, Bool, true, false, Option, none, some, List, [], ◌∷◌, arith, ℕ_discrete,
  lookup,
}
use sonic_edge.Base.Assoc.{remove, promote}
use sonic_edge.Base.Words.{saturating_add, u64_max}
use sonic_edge.Lru.{Lru}
use sonic_edge.Lru.Listed.{listed}
use sonic_edge.Exec.{Result, ok, attempt, ◌>>=◌}
use sonic_edge.Core.Env.{ask}
use sonic_edge.Dex.Pair.{get_pair_address, get_pair_tokens, get_pair_code_hash}
use sonic_edge.Core.Types.{Address}
use sonic_edge.Core.Dedupe.{DedupeCache, new, check_and_update, check_all}
use sonic_edge.Core.Dedupe.Check.{IsBounded}
use sonic_edge.Core.Dedupe.History.{
  Tracks, Covers, ideal_verdicts, note, check_all-Covers, check_all-eq-ideal_verdicts, new-Tracks,
}
use sonic_edge.Core.Dedupe.Window.{check_and_update-window}
use sonic_edge.Dex.Pair.Packing.{SamePair}
use sonic_edge.Dex.PairCache.{
  PairKey, PairKey-discrete, PairMetadata, CacheEntry, PairMetadataCache, get_cached, insert_cached,
  new_key,
}
use sonic_edge.Dex.PairCache.Keys.{new_key_iff}
use sonic_edge.Dex.PairCache.Entries.{IsSized, get_cached-insert_cached}
use sonic_edge.Dex.Resolve.{
  Session, query, cached, remember, remember_code_hash, remembered, resolve_factory, resolve,
  resolve_with_now, fetch_code_hash, code_hash_or_fetch,
}
use sonic_edge.Dex.Resolve.Genuine.{IsGenuine, FromOneOf}
use sonic_edge.Dex.Resolve.Provenance.{resolve-FromOneOf}
use sonic_edge.Dex.Resolve.Caching.{resolve_again}
use sonic_edge.Dex.Resolve.CodeHashes.{code_hash_again}
use sonic_edge.Exec.Ensures.{IfOk}
use sonic_edge.Tests.Outside.{a_pair_abi, a_hashing, an_env}

-- A dedupe cache of two keys with a window of 100 ms.
abbrev dedupe_lru : Lru ℕ ℕ ℕ_discrete
dedupe_lru = listed ℕ_discrete

abbrev new_dedupe : DedupeCache dedupe_lru
new_dedupe = record { ttl_ms = 100; cache = record { items = []; capacity = 2 } }

new_dedupe-Tracks : Tracks dedupe_lru 100 2 new_dedupe []
unfolding new
new_dedupe-Tracks = new-Tracks dedupe_lru 2 100

new_dedupe-IsBounded : IsBounded dedupe_lru new_dedupe
new_dedupe-IsBounded = new_dedupe-Tracks.valid

abbrev checks : List (ℕ × ℕ)
checks = (7, 1000) ∷ (8, 1010) ∷ (7, 1050) ∷ []

abbrev history : List (ℕ × ℕ)
history = (7, 1150) ∷ (8, 1110) ∷ []

-- The third check repeats the first within the window.
check_all_run : (check_all dedupe_lru new_dedupe checks).0 ≡ true ∷ true ∷ false ∷ []
unfolding check_all check_and_update saturating_add ℕ_discrete lookup remove promote
check_all_run = refl

check_all-Covers_example :
    Covers (ideal_verdicts ℕ_discrete 100 [] checks) (check_all dedupe_lru new_dedupe checks).0
check_all-Covers_example = check_all-Covers dedupe_lru 100 2 checks new_dedupe-Tracks

check_all-eq-ideal_verdicts_example :
    (check_all dedupe_lru new_dedupe checks).0 ≡ ideal_verdicts ℕ_discrete 100 [] checks
unfolding note saturating_add remove ℕ_discrete
check_all-eq-ideal_verdicts_example =
    check_all-eq-ideal_verdicts dedupe_lru 100 2 checks new_dedupe-Tracks (omega arith)

check_and_update-window_example :
    (check_and_update dedupe_lru
      (check_all dedupe_lru (check_and_update dedupe_lru new_dedupe 7 1000).1 ((8, 1010) ∷ [])).1
      7
      1050).0
    ≡ false
unfolding saturating_add
check_and_update-window_example =
    check_and_update-window dedupe_lru 7 1000 new_dedupe ((8, 1010) ∷ []) 1050 new_dedupe-IsBounded
      (omega arith) (omega arith, tt) (omega arith)

-- A pair cache of two entries, 5000 ms for a pair and 300 ms for no pair.
abbrev pair_lru : Lru PairKey CacheEntry PairKey-discrete
pair_lru = listed PairKey-discrete

abbrev new_pairs : PairMetadataCache pair_lru
new_pairs = record {
  positive_ttl_ms = 5000;
  negative_ttl_ms = 300;
  entries = record { items = []; capacity = 2 };
  pair_code_hashes = (91, record { value = some 601; expires_at_ms = u64_max }) ∷ [];
}

abbrev a_key : PairKey
a_key = record { factory = 90; token0 = 30; token1 = 50; stable = none }

abbrev another_key : PairKey
another_key = record { factory = 90; token0 = 30; token1 = 50; stable = some true }

abbrev a_pair : PairMetadata
a_pair = record { factory = 90; pair = 110; token0 = 30; token1 = 50 }

get_cached-insert_cached_example :
    (get_cached pair_lru (insert_cached pair_lru new_pairs a_key (some a_pair) 1000) a_key 6000).0
    ≡ some (some a_pair)
unfolding saturating_add
get_cached-insert_cached_example =
    get_cached-insert_cached pair_lru new_pairs a_key (some a_pair) 1000 6000 (omega arith)

abbrev a_factory : Address
a_factory = 90

abbrev no_kind : Option Bool
no_kind = none

new_key_iff_example :
    (new_key 90 30 50 none ≡ new_key 90 50 30 none)
    ↔ ((a_factory ≡ a_factory) × SamePair 30 50 50 30 × (no_kind ≡ no_kind))
new_key_iff_example = new_key_iff 30 50 50 30 90 90 none none

abbrev a_session : Session pair_lru
a_session = record { cache = new_pairs; asked = 0 }

resolve-FromOneOf_example :
    IsGenuine a_pair_abi a_hashing an_env pair_lru
      (resolve pair_lru a_pair_abi a_hashing an_env (90 ∷ []) 50 30 none a_session).1
    × IfOk
        (FromOneOf a_pair_abi a_hashing an_env (90 ∷ []) 50 30 none)
        (resolve pair_lru a_pair_abi a_hashing an_env (90 ∷ []) 50 30 none a_session).0
resolve-FromOneOf_example =
    resolve-FromOneOf pair_lru a_pair_abi a_hashing an_env (90 ∷ []) 50 30 none a_session
      (record { entries = tt })

new_pairs-IsSized : IsSized pair_lru 2 5000 300 new_pairs
new_pairs-IsSized = record {
  capacity = refl;
  bounded = omega arith;
  positive_ttl = refl;
  negative_ttl = refl;
}

abbrev first_resolved : Result (Option PairMetadata) × Session pair_lru
first_resolved =
    resolve_with_now pair_lru a_pair_abi a_hashing an_env 50 30 none 1000 (90 ∷ []) a_session

-- The factory knows the pair, and the pair its tokens.
first_resolved_run : first_resolved.0 ≡ ok (some a_pair)
unfolding resolve_with_now resolve_factory cached get_cached lookup query remember remembered
    get_pair_address get_pair_tokens ask attempt ◌>>=◌
first_resolved_run = refl

resolve_again_example :
    ((resolve_with_now pair_lru a_pair_abi a_hashing an_env 30 50 none 6000
        (90 ∷ [])
        first_resolved.1).0
      ≡ ok (some a_pair))
    × ((resolve_with_now pair_lru a_pair_abi a_hashing an_env 30 50 none 6000
          (90 ∷ [])
          first_resolved.1).1.asked
        ≡ first_resolved.1.asked)
unfolding saturating_add get_cached new_key lookup
resolve_again_example =
    resolve_again pair_lru a_pair_abi a_hashing an_env none 2 5000 300 90 50 30 1000 6000 a_session
      first_resolved.1 (some a_pair) (omega arith) new_pairs-IsSized refl
      (ap (λ r. (r, first_resolved.1)) first_resolved_run) (omega arith)

abbrev first_fetched : Result (Option ℕ) × Session pair_lru
first_fetched = fetch_code_hash pair_lru a_pair_abi a_hashing an_env 90 1000 a_session

-- The first of the two calls fails, and the second answers.
first_fetched_run : first_fetched.0 ≡ ok (some 600)
unfolding fetch_code_hash query get_pair_code_hash remember_code_hash ask attempt ◌>>=◌
first_fetched_run = refl

code_hash_again_example :
    code_hash_or_fetch pair_lru a_pair_abi a_hashing an_env 90 2000
      (lookup ℕ_discrete 90 first_fetched.1.cache.pair_code_hashes)
      first_fetched.1
    ≡ (ok (some 600), first_fetched.1)
unfolding saturating_add
code_hash_again_example =
    code_hash_again pair_lru a_pair_abi a_hashing an_env 90 1000 2000 a_session first_fetched.1
      (some 600) (ap (λ r. (r, first_fetched.1)) first_fetched_run)

abbrev full_session : Session pair_lru
full_session = record {
  cache = record new_pairs {
    entries = record {
      items = (a_key, record { value = some a_pair; expires_at_ms = 2000 }) ∷ [];
      capacity = 2;
    };
  };
  asked = 0;
}
