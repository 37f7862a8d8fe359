-- ===== src/Dex/Resolve/Steady.antt =====
-- `resolve` of crates/dex/src/pair_cache.rs, while the answers of the node do not change, against
-- a resolution without caches.
mod Hashes
use sonic_edge.Base.{
  ℕ, ◌%◌, ◌^◌, ◌≡◌, ◌∙◌, sym, ap, refl, Bool, Option, none, some, List, [], ◌∷◌, get_or,
}
use sonic_edge.Exec.{Result, ok, and_then, pure, ◌>>=◌}
use sonic_edge.Exec.Answers.{
  Answers, or_else, and_then_ok, Answers-same, Answers-bind_ok, Answers-pure, Answers-bind,
  Answers-attempt,
}
use sonic_edge.Lru.{Lru}
use sonic_edge.Core.Types.{Address, B256}
use sonic_edge.Core.Env.{Env, now_ms}
use sonic_edge.Dex.Pair.{PairAbi, Hashing, get_pair_address, get_pair_address_solidly}
use sonic_edge.Dex.Pair.Steady.{
  Whenever, get_pair_address-Answers, get_pair_address_solidly-Answers, get_pair_tokens-Answers,
}
use sonic_edge.Dex.PairCache.{PairKey, PairKey-discrete, PairMetadata, CacheEntry, new_key}
use sonic_edge.Dex.PairCache.Stored.{AnswerHas}
use sonic_edge.Dex.Uncached.{Node, IsSteady, known_pair, pair_with, by_answer, in_factory, uncached}
use sonic_edge.Dex.Uncached.Order.{IsSymmetric, in_factory-new_key}
use sonic_edge.Dex.Resolve.{
  Session, query, cached, ask_factory, remembered, pair_of_tokens, resolve_answer, resolve_uncached,
  resolve_factory, resolve_with_now, resolve,
}
use sonic_edge.Dex.Resolve.Current.{
  IsAnswer, IsCurrent, query-IsCurrent, remember-IsCurrent, cached-IsCurrent,
}
use sonic_edge.Dex.Resolve.Steady.Hashes.{resolve_with_create2-Answers}

module _ (lru : Lru PairKey CacheEntry PairKey-discrete) (abi : PairAbi) (hashing : Hashing)
    (env : Env) (node : Node) (configured : Address → Option B256)
    (steady : IsSteady env node) where
  abbrev Kept : Session lru → Type 0
  Kept = IsCurrent abi hashing node configured lru

  asked-Answers :
      (factory a b : Address) (stable : Option Bool)
      → Answers Whenever (known_pair abi hashing node configured factory a b stable) (elim stable [
        | some flag ↦ get_pair_address_solidly abi env factory a b flag
        | none ↦ get_pair_address abi env factory a b
      ])
  asked-Answers factory a b (some flag) =
      get_pair_address_solidly-Answers abi hashing env node configured steady factory a b flag
  asked-Answers factory a b none =
      get_pair_address-Answers abi hashing env node configured steady factory a b

  module _ (symmetric : IsSymmetric abi hashing node configured) (a b : Address)
      (stable : Option Bool) (now : ℕ) where
    -- A result that is the factory's is stored as such.
    remembered-Answers :
        (factory : Address) (result : Option PairMetadata)
        → in_factory abi hashing node configured factory a b stable ≡ ok result
        → Answers Kept (ok result) (remembered lru abi hashing env a b stable now factory result)
    unfolding remembered new_key
    remembered-Answers factory result e =
        Answers-bind _ (λ _. ok result) _ _
          (remember-IsCurrent abi hashing node configured lru (new_key factory a b stable) result
            now (in_factory-new_key abi hashing node configured symmetric factory a b stable ∙ e))
          λ _. Answers-pure result

    pair_same :
        (factory pair : Address) (tokens : Option (Address × Address))
        → pair_with abi hashing node configured factory pair tokens
          ≡ pair_of_tokens lru abi hashing env a b stable now factory pair tokens
    pair_same factory pair none = refl
    pair_same factory pair (some (token0, token1)) = refl

    resolve_answer-Answers :
        (factory : Address) (pair : Option Address)
        → in_factory abi hashing node configured factory a b stable
          ≡ by_answer abi hashing node configured factory a b stable pair
        → Answers Kept
            (by_answer abi hashing node configured factory a b stable pair)
            (resolve_answer lru abi hashing env a b stable now factory pair)
    unfolding resolve_answer
    resolve_answer-Answers factory none e = Answers-same (and_then_ok _) (
        Answers-bind_ok _ (λ found. ok found) _ _
          (resolve_with_create2-Answers lru abi hashing env node configured steady factory a b
            stable)
          λ found e'. remembered-Answers factory found (e ∙ e'))
    resolve_answer-Answers factory (some pair) e =
        Answers-bind_ok _ _ _ _
          (query-IsCurrent abi hashing node configured lru _ _
            (get_pair_tokens-Answers abi hashing env node configured steady pair))
          λ tokens e'. Answers-same (ap ok (sym (pair_same factory pair tokens))) (
            remembered-Answers factory _ (
              e
              ∙ ap
                  (λ t.
                    and_then t
                      λ tokens. ok (pair_with abi hashing node configured factory pair tokens))
                  e'
              ∙ ap ok (pair_same factory pair tokens)))

    abbrev answered : Address → Result (Option Address)
    answered factory =
        or_else (known_pair abi hashing node configured factory a b stable) (λ pair. ok pair)
          λ _. ok none

    ask_factory-Answers :
        (factory : Address)
        → Answers Kept (answered factory) (ask_factory lru abi hashing env a b stable now factory)
    unfolding ask_factory
    ask_factory-Answers factory =
        Answers-attempt _ _ _ _ _ _
          (query-IsCurrent abi hashing node configured lru _ _ (asked-Answers factory a b stable))
          (λ pair. Answers-pure pair) λ _. Answers-pure none

    resolve_uncached-Answers :
        (factory : Address) (hit : Option (Option PairMetadata))
        → AnswerHas (IsAnswer abi hashing node configured) (new_key factory a b stable) hit
        → Answers Kept
            (in_factory abi hashing node configured factory a b stable)
            (resolve_uncached lru abi hashing env a b stable now factory hit)
    unfolding resolve_uncached in_factory
    resolve_uncached-Answers factory (some r) h =
        Answers-same
          (sym h ∙ in_factory-new_key abi hashing node configured symmetric factory a b stable)
          (Answers-pure r)
    resolve_uncached-Answers factory none h =
        Answers-bind_ok _ _ _ _ (ask_factory-Answers factory) λ pair e.
          resolve_answer-Answers factory pair (
            ap
              (λ t.
                and_then t (λ pair. by_answer abi hashing node configured factory a b stable pair))
              e)

    resolve_factory-Answers :
        (factory : Address)
        → Answers Kept
            (in_factory abi hashing node configured factory a b stable)
            (resolve_factory lru abi hashing env a b stable now factory)
    unfolding resolve_factory cached ◌>>=◌
    resolve_factory-Answers factory = record {
      at = λ s h.
          let (kept, known) =
            cached-IsCurrent abi hashing node configured lru (new_key factory a b stable) now s h in
          (resolve_uncached-Answers factory _ known).at _ kept;
    }

    resolve_with_now-Answers :
        (factories : List Address)
        → Answers Kept
            (uncached abi hashing node configured factories a b stable)
            (resolve_with_now lru abi hashing env a b stable now factories)
    unfolding resolve_with_now uncached
    resolve_with_now-Answers [] = Answers-pure none
    resolve_with_now-Answers (factory ∷ factories) =
        Answers-bind _ _ _ _ (resolve_factory-Answers factory)
          λ found. next found (resolve_with_now-Answers factories)
      where
        next :
            (found : Option PairMetadata)
            → Answers Kept
                (uncached abi hashing node configured factories a b stable)
                (resolve_with_now lru abi hashing env a b stable now factories)
            → Answers Kept
                (elim found [
                  | some m ↦ ok (some m)
                  | none ↦ uncached abi hashing node configured factories a b stable
                ])
                (elim found [
                  | some m ↦ pure (some m)
                  | none ↦ resolve_with_now lru abi hashing env a b stable now factories
                ])
        next (some m) later = Answers-pure (some m)
        next none later = later

  -- While the answers of the node do not change and factories answer the same for two tokens in
  -- either order: from a cache that holds only such answers, however full and whatever has expired,
  -- a resolution answers, its errors included, what it would answer without the caches, and the
  -- cache that it leaves holds only such answers again.
  pub resolve-eq-uncached :
      IsSymmetric abi hashing node configured
      → (factories : List Address) (a b : Address) (stable : Option Bool) (s : Session lru) → Kept s
      → ((resolve lru abi hashing env factories a b stable s).0
          ≡ uncached abi hashing node configured factories a b stable)
        × Kept (resolve lru abi hashing env factories a b stable s).1
  unfolding resolve query now_ms ◌>>=◌
  resolve-eq-uncached symmetric factories a b stable s h =
      (resolve_with_now-Answers symmetric a b stable (get_or (env.system_time s.asked) 0 % 2 ^ 64)
          factories).at
        _ (record { entries = h.entries; hashes = h.hashes })
