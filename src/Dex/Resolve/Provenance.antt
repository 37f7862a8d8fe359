-- ===== src/Dex/Resolve/Provenance.antt =====
-- Where a resolved pair comes from, whatever the node answers.
use sonic_edge.Base.{ℕ, inl, inr, Bool, Option, none, some, List, [], ◌∷◌, refl, subst, sym}
use sonic_edge.Exec.Ensures.{
  IfOk, Ensures, Any, Ensures-Any, Ensures-pure, Ensures-bind, Ensures-attempt, Ensures-weaken,
}
use sonic_edge.Lru.{Lru}
use sonic_edge.Core.Types.{Address}
use sonic_edge.Core.Env.{Env}
use sonic_edge.Exec.{Exec}
use sonic_edge.Dex.Pair.{PairAbi, Hashing, get_pair_address, get_pair_address_solidly}
use sonic_edge.Dex.PairCache.{PairKey, PairKey-discrete, PairMetadata, CacheEntry}
use sonic_edge.Dex.Resolve.{
  Session, ask_factory, remembered, pair_of_tokens, resolve_answer, resolve_uncached,
  resolve_factory, resolve_with_now, resolve,
}
use sonic_edge.Dex.Resolve.Origin.{
  Names, NamesIf, HasTokensIf, get_pair_address-NamesIf, get_pair_address_solidly-NamesIf,
  get_pair_tokens-HasTokensIf,
}
use sonic_edge.Dex.Resolve.Genuine.{
  FromFactory, FromOneOf, CachedOk, IsGenuine, query-IsGenuine, cached-IsGenuine,
  remember-IsGenuine,
}
use sonic_edge.Dex.Resolve.Create2.{create2-FromFactory}

module _ (lru : Lru PairKey CacheEntry PairKey-discrete) (abi : PairAbi) (hashing : Hashing)
    (env : Env) where
  abbrev Kept : Session lru → Type 0
  Kept = IsGenuine abi hashing env lru

  asked-NamesIf :
      (factory a b : Address) (stable : Option Bool)
      → Ensures Any
          (NamesIf abi hashing env factory a b stable)
          (elim stable as (λ _. Exec ℕ (Option Address)) [
            | some flag ↦ get_pair_address_solidly abi env factory a b flag
            | none ↦ get_pair_address abi env factory a b
          ])
  asked-NamesIf factory a b none = get_pair_address-NamesIf abi hashing env factory a b
  asked-NamesIf factory a b (some flag) =
      get_pair_address_solidly-NamesIf abi hashing env factory a b flag

  module _ (token_a token_b : Address) (stable : Option Bool) (now : ℕ) where
    abbrev Answer : Address → Option PairMetadata → Type 0
    Answer factory = FromFactory abi hashing env factory token_a token_b stable

    remembered-FromFactory :
        (factory : Address) (result : Option PairMetadata)
        → Answer factory result
        → Ensures Kept
            (Answer factory)
            (remembered lru abi hashing env token_a token_b stable now factory result)
    unfolding remembered
    remembered-FromFactory factory result q =
        Ensures-bind Kept Any (Answer factory) _ _
          (remember-IsGenuine abi hashing env lru factory token_a token_b stable result now q)
          (λ _ _. Ensures-pure _ q)

    pair_of_tokens-FromFactory :
        (factory pair : Address) (tokens : Option (Address × Address))
        → Names abi hashing env factory token_a token_b stable pair
        → HasTokensIf abi hashing env pair tokens
        → Answer factory
            (pair_of_tokens lru abi hashing env token_a token_b stable now factory pair tokens)
    pair_of_tokens-FromFactory factory pair none named h = tt
    pair_of_tokens-FromFactory factory pair (some (token0, token1)) named h = (
      token_a,
      token_b,
      inl (refl, refl),
      record { factory_lem = refl; origin = inl named; tokens = h },
    )

    resolve_answer-FromFactory :
        (factory : Address) (pair : Option Address)
        → NamesIf abi hashing env factory token_a token_b stable pair
        → Ensures Kept
            (Answer factory)
            (resolve_answer lru abi hashing env token_a token_b stable now factory pair)
    unfolding resolve_answer
    resolve_answer-FromFactory factory none named =
        Ensures-bind Kept (Answer factory) (Answer factory) _ _
          (create2-FromFactory lru abi hashing env factory token_a token_b stable)
          (λ found q. remembered-FromFactory factory found q)
    resolve_answer-FromFactory factory (some pair) named =
        Ensures-bind Kept (HasTokensIf abi hashing env pair) (Answer factory) _ _
          (query-IsGenuine abi hashing env lru _ (get_pair_tokens-HasTokensIf abi hashing env pair))
          (λ tokens h.
            remembered-FromFactory factory _
              (pair_of_tokens-FromFactory factory pair tokens named h))

    ask_factory-NamesIf :
        (factory : Address)
        → Ensures Kept
            (NamesIf abi hashing env factory token_a token_b stable)
            (ask_factory lru abi hashing env token_a token_b stable now factory)
    unfolding ask_factory
    ask_factory-NamesIf factory =
        Ensures-attempt Kept (NamesIf abi hashing env factory token_a token_b stable)
          (NamesIf abi hashing env factory token_a token_b stable) _ _ _
          (query-IsGenuine abi hashing env lru _ (asked-NamesIf factory token_a token_b stable))
          (λ pair named. Ensures-pure pair named) (λ _. Ensures-pure none tt)

    resolve_uncached-FromFactory :
        (factory : Address) (hit : Option (Option PairMetadata))
        → CachedOk abi hashing env factory token_a token_b stable hit
        → Ensures Kept
            (Answer factory)
            (resolve_uncached lru abi hashing env token_a token_b stable now factory hit)
    unfolding resolve_uncached
    resolve_uncached-FromFactory factory (some result) q = Ensures-pure result q
    resolve_uncached-FromFactory factory none q =
        Ensures-bind Kept (NamesIf abi hashing env factory token_a token_b stable) (Answer factory)
          _ _ (ask_factory-NamesIf factory)
          (λ pair named. resolve_answer-FromFactory factory pair named)

    resolve_factory-FromFactory :
        (factory : Address)
        → Ensures Kept
            (Answer factory)
            (resolve_factory lru abi hashing env token_a token_b stable now factory)
    unfolding resolve_factory
    resolve_factory-FromFactory factory =
        Ensures-bind Kept (CachedOk abi hashing env factory token_a token_b stable) (Answer factory)
          _ _ (cached-IsGenuine abi hashing env lru factory token_a token_b stable now)
          (λ hit q. resolve_uncached-FromFactory factory hit q)

    abbrev Found : List Address → Option PairMetadata → Type 0
    Found factories = FromOneOf abi hashing env factories token_a token_b stable

    widen :
        (factory : Address) (factories : List Address) (r : Option PairMetadata)
        → Found factories r
        → Found (factory ∷ factories) r
    widen factory factories none h = tt
    widen factory factories (some m) h = (inr h.0, h.1)

    first-Found :
        (factory : Address) (factories : List Address) (m : PairMetadata)
        → Answer factory (some m)
        → Found (factory ∷ factories) (some m)
    first-Found factory factories m q =
        let same = q.3.factory_lem in
        (
          inl same,
          subst (λ f. FromFactory abi hashing env f token_a token_b stable (some m)) (sym same) q,
        )

    resolve_with_now-FromOneOf :
        (factories : List Address)
        → Ensures Kept
            (Found factories)
            (resolve_with_now lru abi hashing env token_a token_b stable now factories)
    unfolding resolve_with_now
    resolve_with_now-FromOneOf [] = Ensures-pure _ tt
    resolve_with_now-FromOneOf (factory ∷ factories) =
        Ensures-bind Kept (Answer factory) (Found (factory ∷ factories)) _ _
          (resolve_factory-FromFactory factory)
          (elim [
            | none ↦ λ _.
                Ensures-weaken _ (widen factory factories) (resolve_with_now-FromOneOf factories)
            | some m ↦ λ q. Ensures-pure _ (first-Found factory factories m q)
          ])

  -- Whatever the clock and the node answer, and from a cache whose remembered pairs are vouched
  -- for: every resolved pair is labelled with one of the factories asked, and either that factory
  -- named it for the two tokens, in one of the two orders, or it is the address that the factory
  -- derives for them with some code hash, has code, and has exactly these tokens; the tokens that
  -- come with it are what it answered itself, and not the zero address; and every remembered pair
  -- is again vouched for in this way, for the factory and the tokens of its key.
  pub resolve-FromOneOf :
      (factories : List Address) (token_a token_b : Address) (stable : Option Bool)
      (s : Session lru)
      → IsGenuine abi hashing env lru s
      → IsGenuine abi hashing env lru
          (resolve lru abi hashing env factories token_a token_b stable s).1
        × IfOk
            (FromOneOf abi hashing env factories token_a token_b stable)
            (resolve lru abi hashing env factories token_a token_b stable s).0
  unfolding resolve
  resolve-FromOneOf factories token_a token_b stable s h =
      (Ensures-bind Kept Any (FromOneOf abi hashing env factories token_a token_b stable) _ _
          (query-IsGenuine abi hashing env lru _ (Ensures-Any _))
          (λ now _. resolve_with_now-FromOneOf token_a token_b stable now factories)).at
        s h
