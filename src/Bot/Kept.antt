-- ===== src/Bot/Kept.antt =====
-- What the steps of handling a hash keep, the handling keeps; and what is known of a candidate
-- by the time at which it is bought.
use sonic_edge.Base.{
  ℕ, ◌≤◌, ◌≡◌, ◌≢◌, sym, ap, subst, ◌⊎◌, refl, Bool, true, false, Option, none, some, List, arith,
  not, is_some, ◌==◌, ◌&&◌, ◌||◌, Elem,
}
use sonic_edge.Exec.{Result, ok, err, panic, Exec, pure}
use sonic_edge.Exec.Ensures.{
  IfOk, Ensures, Any, Ensures-Any, Ensures-pure, Ensures-lift, Ensures-bind, Ensures-if,
}
use sonic_edge.Core.Types.{Address, B256, address_zero, MempoolTx, LiquidityCandidate}
use sonic_edge.Dex.PairCache.{PairMetadata, PairMetadataCache}
use sonic_edge.Dex.Resolve.{Session}
use sonic_edge.Risk.{pass, assess}
use sonic_edge.Bot.{World, Bot, detect_liquidity_add}
use sonic_edge.Bot.Detect.{Leg, FirstBase, here, later, Detects, detect_liquidity_add_iff}
use sonic_edge.Bot.Handle.{
  read, query, with_cache, count_hit, with_metadata, resolve_among, resolve_candidate_pair, buy,
  execute_candidate, judge, act_on, on_candidate, on_fetched, on_checked,
}

FirstBase-Elem :
    {base_tokens : List Address} {leg : Leg} {ls : List Leg}
    → FirstBase base_tokens leg ls
    → Elem leg.0 base_tokens
FirstBase-Elem (here h) = h
FirstBase-Elem (later n h) = FirstBase-Elem h

module _ {w : World} (start : Bot w) where
  -- The settings are those at the start.
  pub record SameSettings (bot : Bot w) : Type 0 where
    pub routers : bot.routers ≡ start.routers
    pub base_tokens : bot.base_tokens ≡ start.base_tokens
    pub min_base_amount : bot.min_base_amount ≡ start.min_base_amount
    pub tx_builder : bot.tx_builder ≡ start.tx_builder
    pub allowed : bot.allow_execution_without_pair ≡ start.allow_execution_without_pair
    pub router_factories : bot.router_factories ≡ start.router_factories
    pub timeout : bot.tx_fetch_timeout_ms ≡ start.tx_fetch_timeout_ms
    pub deadline_secs : bot.deadline_secs ≡ start.deadline_secs

  -- What detection says of a candidate.
  pub record IsWorthy (c : LiquidityCandidate) : Type 0 where
    pub router : Elem c.router start.routers
    pub base_token : Elem c.base start.base_tokens
    pub amount : start.min_base_amount ≤ c.implied_liquidity

  -- A worthy candidate with a base other than the native token, for a configured owner, whose
  -- pair is known unless the settings allow to go without.
  pub record IsAuthorized (c : LiquidityCandidate) : Type 0 where
    pub worthy : IsWorthy c
    pub base_nonzero : c.base ≢ 0
    pub owner_nonzero : start.tx_builder.owner ≢ 0
    pub guarded : (is_some c.pair ≡ true) ⊎ (start.allow_execution_without_pair ≡ true)

  abbrev WorthyIfAny : Option LiquidityCandidate → Type 0
  WorthyIfAny none = Unit
  WorthyIfAny (some c) = IsWorthy c

  detected-IsWorthy :
      (bot : Bot w) (tx : MempoolTx) (c : LiquidityCandidate)
      → SameSettings bot
      → Detects bot tx c
      → IsWorthy c
  detected-IsWorthy bot tx c s d = subst IsWorthy (sym d.result) (record {
    router = subst (Elem d.to) s.routers d.watched;
    base_token = subst (Elem d.leg.0) s.base_tokens (FirstBase-Elem d.based);
    amount = omega (arith, d.enough, s.min_base_amount);
  })

  detected-WorthyIfAny :
      (bot : Bot w) (tx : MempoolTx) (r : Result (Option LiquidityCandidate))
      → SameSettings bot
      → detect_liquidity_add bot tx ≡ r
      → IfOk WorthyIfAny r
  detected-WorthyIfAny bot tx (ok none) s e = tt
  detected-WorthyIfAny bot tx (ok (some c)) s e =
      detected-IsWorthy bot tx c s ((detect_liquidity_add_iff bot tx c).0 e)
  detected-WorthyIfAny bot tx (err x) s e = tt
  detected-WorthyIfAny bot tx panic s e = tt

  -- An invariant that each of the bot's writes keeps, the purchase of an authorized candidate
  -- as one.
  pub record IsKept (P : Bot w → Type 0) : Type 0 where
    pub settings : (bot : Bot w) → P bot → SameSettings bot
    pub asked : (bot : Bot w) (n : ℕ) → P bot → P (record bot { asked = n })
    pub cached :
        (bot : Bot w) (c : PairMetadataCache w.pair_lru) (n : ℕ)
        → P bot
        → P (record bot { pair_cache = c; asked = n })
    pub counted : (bot : Bot w) (n : Option ℕ) → P bot → P (record bot { dedup_hits = n })
    pub bought : (bot : Bot w) (c : LiquidityCandidate) → P bot → IsAuthorized c → P (buy c bot).1

  module _ {P : Bot w → Type 0} (kept : IsKept P) where
    read-Ensures :
        {A : Type 0} {Q : A → Type 0} (f : Bot w → A)
        → ((bot : Bot w) → P bot → Q (f bot))
        → Ensures P Q (read f)
    unfolding read
    read-Ensures f q = record { at = λ s h. (h, q s h) }

    pub query-Ensures : {A : Type 0} (m : Exec ℕ A) → Ensures P Any (query m)
    unfolding query
    query-Ensures m = record { at = λ s h. (kept.asked s _ h, ((Ensures-Any m).at s.asked tt).1) }

    with_cache-Ensures :
        {A : Type 0} (m : Exec (Session w.pair_lru) A) → Ensures P Any (with_cache m)
    unfolding with_cache
    with_cache-Ensures m = record { at = λ s h. (kept.cached s _ _ h, ((Ensures-Any m).at _ tt).1) }

    count_hit-Ensures : Ensures P Any count_hit
    unfolding count_hit
    count_hit-Ensures = record { at = λ s h. (kept.counted s _ h, tt) }

    buy-Ensures : (c : LiquidityCandidate) → IsAuthorized c → Ensures P Any (buy c)
    buy-Ensures c a = record {
      at = λ s h. (kept.bought s c h a, ((Ensures-Any (buy c)).at s tt).1);
    }

    with_metadata-IsWorthy :
        (c : LiquidityCandidate) (m : Option PairMetadata)
        → IsWorthy c
        → IsWorthy (with_metadata c m)
    with_metadata-IsWorthy c none h = h
    with_metadata-IsWorthy c (some m) h = record {
      router = h.router;
      base_token = h.base_token;
      amount = h.amount;
    }

    resolve_among-Ensures :
        (c : LiquidityCandidate) (fs : Option (List Address))
        → IsWorthy c
        → Ensures P IsWorthy (resolve_among c fs)
    unfolding resolve_among
    resolve_among-Ensures c none h = Ensures-pure c h
    resolve_among-Ensures c (some fs) h =
        Ensures-bind P Any IsWorthy _ _ (with_cache-Ensures _)
          (λ m _. Ensures-pure _ (with_metadata-IsWorthy c m h))

    resolve_candidate_pair-Ensures :
        (c : LiquidityCandidate) → IsWorthy c → Ensures P IsWorthy (resolve_candidate_pair c)
    unfolding resolve_candidate_pair
    resolve_candidate_pair-Ensures c h =
        Ensures-if (c.base == address_zero || is_some c.pair) (pure c) _ (λ _. Ensures-pure c h)
          (λ _.
            Ensures-bind P Any IsWorthy _ _ (read-Ensures _ (λ s q. tt))
              (λ fs _. resolve_among-Ensures c fs h))

    Guarded : LiquidityCandidate → Type 0
    Guarded c = (is_some c.pair ≡ true) ⊎ (start.allow_execution_without_pair ≡ true)

    execute_candidate-Ensures :
        (c : LiquidityCandidate) → IsWorthy c → Guarded c → Ensures P Any (execute_candidate c)
    unfolding execute_candidate Guarded
    execute_candidate-Ensures c h g =
        Ensures-bind P (λ o. o ≡ start.tx_builder.owner) Any _ _
          (read-Ensures _ (λ s q. ap (λ b. b.owner) (kept.settings s q).tx_builder))
          λ owner same.
            Ensures-if (owner == address_zero) _ _ (λ _. Ensures-pure tt tt)
              (λ owned.
                Ensures-if (c.base == address_zero) _ _ (λ _. Ensures-pure tt tt)
                  (λ based. buy-Ensures c (record {
                    worthy = h;
                    base_nonzero = λ z. ground arith;
                    owner_nonzero = λ z. ground arith;
                    guarded = g;
                  })))

    judge-Ensures : (c : LiquidityCandidate) → IsWorthy c → Guarded c → Ensures P Any (judge c)
    unfolding judge assess pass
    judge-Ensures c h g = Ensures-bind P Any Any _ _ (read-Ensures _ (λ s q. tt)) λ risk _.
        Ensures-bind P Any Any _ _ (Ensures-pure _ tt) λ decision _.
          Ensures-if (not decision.pass) _ _ (λ _. Ensures-pure tt tt)
            (λ _. execute_candidate-Ensures c h g)

    Guarded-of :
        (c : LiquidityCandidate) (allowed : Bool)
        → allowed ≡ start.allow_execution_without_pair
        → (not (is_some c.pair) && not allowed) ≡ false
        → Guarded c
    unfolding Guarded
    Guarded-of c allowed same h = ground arith

    act_on-Ensures : (c : LiquidityCandidate) → IsWorthy c → Ensures P Any (act_on c)
    unfolding act_on
    act_on-Ensures c h =
        Ensures-bind P (λ b. b ≡ start.allow_execution_without_pair) Any _ _
          (read-Ensures _ (λ s q. (kept.settings s q).allowed))
          λ allowed same.
            Ensures-if (c.base == address_zero) _ _ (λ _. Ensures-pure tt tt)
              (λ based.
                Ensures-if (not (is_some c.pair) && not allowed) _ _ (λ _. Ensures-pure tt tt)
                  (λ paired. judge-Ensures c h (Guarded-of c allowed same paired)))

    on_candidate-Ensures :
        (c : Option LiquidityCandidate) → WorthyIfAny c → Ensures P Any (on_candidate c)
    unfolding on_candidate
    on_candidate-Ensures none h = Ensures-pure tt tt
    on_candidate-Ensures (some c) h =
        Ensures-bind P IsWorthy Any _ _ (resolve_candidate_pair-Ensures c h)
          (λ c' h'. act_on-Ensures c' h')

    on_fetched-Ensures : (tx : Option MempoolTx) → Ensures P Any (on_fetched tx)
    unfolding on_fetched
    on_fetched-Ensures none = Ensures-pure tt tt
    on_fetched-Ensures (some tx) =
        Ensures-bind P (IfOk WorthyIfAny) Any _ _
          (read-Ensures _ (λ s q. detected-WorthyIfAny s tx _ (kept.settings s q) refl))
          λ detected q.
            Ensures-bind P WorthyIfAny Any _ _ (Ensures-lift detected q)
              (λ c h. on_candidate-Ensures c h)

    -- All that follows the check of the hash keeps the invariant.
    pub on_checked-Ensures : (hash : B256) (fresh : Bool) → Ensures P Any (on_checked hash fresh)
    unfolding on_checked
    on_checked-Ensures hash false = count_hit-Ensures
    on_checked-Ensures hash true =
        Ensures-bind P Any Any _ _ (read-Ensures _ (λ s q. tt))
          λ timeout _. Ensures-bind P Any Any _ _ (query-Ensures _) λ tx _. on_fetched-Ensures tx
