-- ===== src/Dex/Resolve/Steady/Hashes.antt =====
-- `code_hash_for_factory` and `resolve_with_create2` of crates/dex/src/pair_cache.rs, while the answers
-- of the node do not change.
use sonic_edge.Base.{
  ℕ, ◌%◌, ◌^◌, ◌≤◌, ◌<◌, ◌≡◌, ◌∙◌, sym, ap, refl, ◌⊎◌, inl, inr, Bool, true, false, Option, none,
  some, [], ◌∷◌, arith, leb, not, lookup, ℕ_discrete, get_or,
}
use sonic_edge.Base.Words.{u64_max}
use sonic_edge.Exec.{Result, ok, and_then, ◌>>=◌}
use sonic_edge.Exec.Answers.{
  Answers, or_else, and_then_assoc, and_then_congr, and_then_ok, Answers-same, Answers-if,
  Answers-bind_ok, Answers-pure, Answers-bind, Answers-attempt,
}
use sonic_edge.Lru.{Lru}
use sonic_edge.Core.Types.{Address, B256, Bytes}
use sonic_edge.Core.Env.{Env, ask, now_ms}
use sonic_edge.Dex.Pair.{PairAbi, Hashing, is_empty, contract_exists}
use sonic_edge.Dex.Pair.Steady.{
  get_pair_tokens-Answers, get_pair_code_hash-Answers, contract_exists-Answers,
}
use sonic_edge.Dex.PairCache.{PairKey, PairKey-discrete, PairMetadata, CacheEntry, CodeHashEntry}
use sonic_edge.Dex.Uncached.{
  Node, IsSteady, tokens_of, asked_hash, hash_or_asked, hash_of, create2_address, pair_if_matching,
  pair_at, by_hash, by_answer,
}
use sonic_edge.Dex.Resolve.{
  Session, query, code_hash_entry, fetched_entry, fetch_code_hash, code_hash_or_fetch,
  code_hash_for_factory, derived, derived_if_exists, derived_from_hash, checked_tokens,
  resolve_with_create2,
}
use sonic_edge.Dex.Resolve.Current.{
  IsHash, IsCurrent, query-IsCurrent, remember_code_hash-IsCurrent,
}

module _ (lru : Lru PairKey CacheEntry PairKey-discrete) (abi : PairAbi) (hashing : Hashing)
    (env : Env) (node : Node) (configured : Address → Option B256)
    (steady : IsSteady env node) where
  abbrev Holds : Session lru → Type 0
  Holds = IsCurrent abi hashing node configured lru

  -- The factory's own hash is kept where none is configured.
  fetch_code_hash-Answers :
      (factory : Address) (now : ℕ)
      → configured factory ≡ none
      → Answers Holds
          (hash_of abi hashing node configured factory)
          (fetch_code_hash lru abi hashing env factory now)
  unfolding fetch_code_hash
  fetch_code_hash-Answers factory now unset =
      Answers-same
        (and_then_ok _ ∙ ap (hash_or_asked abi hashing node configured factory) (sym unset))
        (Answers-bind_ok _ _ _ _
          (query-IsCurrent abi hashing node configured lru _ _
            (get_pair_code_hash-Answers abi hashing env node configured steady factory))
          λ fetched e.
            Answers-bind _ (λ _. ok fetched) _ _
              (remember_code_hash-IsCurrent abi hashing node configured lru factory _
                (entry_IsHash fetched e, inr unset))
              λ _. Answers-pure fetched)
    where
      entry_IsHash :
          (fetched : Option B256)
          → asked_hash abi hashing node configured factory ≡ ok fetched
          → hash_of abi hashing node configured factory
            ≡ ok (fetched_entry lru abi hashing env fetched now).value
      entry_IsHash none e = ap (hash_or_asked abi hashing node configured factory) unset ∙ e
      entry_IsHash (some hash) e = ap (hash_or_asked abi hashing node configured factory) unset ∙ e

  code_hash_or_fetch-Answers :
      (factory : Address) (now : ℕ) (entry : Option CodeHashEntry)
      → now < 2 ^ 64
      → IsHash abi hashing node configured factory entry
      → Answers Holds
          (hash_of abi hashing node configured factory)
          (code_hash_or_fetch lru abi hashing env factory now entry)
  unfolding code_hash_or_fetch
  code_hash_or_fetch-Answers factory now none fits h = fetch_code_hash-Answers factory now h
  code_hash_or_fetch-Answers factory now (some entry) fits h =
      Answers-if (leb now entry.expires_at_ms) _ _ _
        (λ _. Answers-same (sym h.0) (Answers-pure entry.value))
        λ late. fetch_code_hash-Answers factory now (unset late h.1)
    where
      unset :
          leb now entry.expires_at_ms ≡ false
          → (u64_max ≤ entry.expires_at_ms) ⊎ (configured factory ≡ none)
          → configured factory ≡ none
      unset late (inl lasting) = absurd (ground (arith, late, lasting, fits))
      unset late (inr e) = e

  code_hash_for_factory-Answers :
      (factory : Address)
      → Answers Holds
          (hash_of abi hashing node configured factory)
          (code_hash_for_factory lru abi hashing env factory)
  unfolding code_hash_for_factory query now_ms ask code_hash_entry ◌>>=◌
  code_hash_for_factory-Answers factory = record {
    at = λ s h.
        (code_hash_or_fetch-Answers factory (get_or (env.system_time s.asked) 0 % 2 ^ 64)
            (lookup ℕ_discrete factory s.cache.pair_code_hashes) (omega arith)
            (h.hashes factory)).at
          _ (record { entries = h.entries; hashes = h.hashes });
  }

  derived_same :
      (factory a b : Address) (stable : Option Bool) (hash : B256)
      → derived lru abi hashing env factory a b stable hash
        ≡ create2_address abi hashing node configured factory a b stable hash
  derived_same factory a b none hash = refl
  derived_same factory a b (some flag) hash = refl

  module _ (factory a b : Address) (stable : Option Bool) where
    abbrev if_exists : Address → Bool → Result (Option PairMetadata)
    if_exists pair false = ok none
    if_exists pair true =
        or_else (tokens_of abi hashing node configured pair)
          (λ tokens. ok (pair_if_matching abi hashing node configured factory a b pair tokens))
          λ _. ok none

    checked_same :
        (pair : Address) (tokens : Option (Address × Address))
        → pair_if_matching abi hashing node configured factory a b pair tokens
          ≡ checked_tokens lru abi hashing env factory a b pair tokens
    unfolding checked_tokens
    checked_same pair none = refl
    checked_same pair (some (token0, token1)) = refl

    derived_if_exists-Answers :
        (pair : Address) (exists : Bool)
        → Answers Holds
            (if_exists pair exists)
            (derived_if_exists lru abi hashing env factory a b pair exists)
    unfolding derived_if_exists
    derived_if_exists-Answers pair false = Answers-pure none
    derived_if_exists-Answers pair true =
        Answers-attempt _ _ _ _ _ _
          (query-IsCurrent abi hashing node configured lru _ _
            (get_pair_tokens-Answers abi hashing env node configured steady pair))
          (λ tokens. Answers-same (ap ok (sym (checked_same pair tokens))) (Answers-pure _))
          λ _. Answers-pure none

    by_code :
        (pair : Address) (code : Bytes)
        → if_exists pair (not (is_empty abi env code))
          ≡ pair_at abi hashing node configured factory a b stable pair code
    by_code pair [] = refl
    by_code pair (_ ∷ _) = refl

    at_address-Answers :
        (pair : Address)
        → Answers Holds
            (and_then
              (node.get_code_at pair)
              λ code. pair_at abi hashing node configured factory a b stable pair code)
            (do
              exists ← query (contract_exists abi env pair)
              derived_if_exists lru abi hashing env factory a b pair exists)
    at_address-Answers pair =
        Answers-same
          (sym (and_then_assoc (node.get_code_at pair) _ _)
            ∙ and_then_congr (node.get_code_at pair) _ _ (λ code. by_code pair code))
          (Answers-bind _ (λ exists. if_exists pair exists) _ _
            (query-IsCurrent abi hashing node configured lru _ _
              (contract_exists-Answers abi hashing env node configured steady pair))
            λ exists. derived_if_exists-Answers pair exists)

    derived_from_hash-Answers :
        (hash : Option B256)
        → Answers Holds
            (by_hash abi hashing node configured factory a b stable hash)
            (derived_from_hash lru abi hashing env factory a b stable hash)
    unfolding derived_from_hash
    derived_from_hash-Answers none = Answers-pure none
    derived_from_hash-Answers (some hash) =
        rw (derived_same factory a b stable hash) (at_address-Answers _)

    pub resolve_with_create2-Answers :
        Answers Holds
          (by_answer abi hashing node configured factory a b stable none)
          (resolve_with_create2 lru abi hashing env factory a b stable)
    unfolding resolve_with_create2
    resolve_with_create2-Answers =
        Answers-bind _ _ _ _ (code_hash_for_factory-Answers factory)
          λ hash. derived_from_hash-Answers hash
