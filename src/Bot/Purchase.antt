-- ===== src/Bot/Purchase.antt =====
-- A worthwhile transaction is answered by a purchase.
use sonic_edge.Base.{
  ℕ, ◌+◌, ◌/◌, ◌%◌, ◌^◌, ◌≡◌, ◌≢◌, ◌∙◌, ap, refl, sym, inl, inr, ◌⊎◌, true, false, Option, none,
  some, List, [], ◌∷◌, ◌++◌, arith, not, is_some, ◌==◌, ◌&&◌, ◌||◌, subst, Bool-cases,
}
use sonic_edge.Exec.{Result, ok, err, panic, pure, continue, ◌>>=◌}
use sonic_edge.Exec.Ensures.{IfOk}
use sonic_edge.Core.Types.{
  Address, B256, address_zero, LiquidityCandidate, RpcTransaction, TransactionRequest,
}
use sonic_edge.Risk.{pass, assess}
use sonic_edge.Executor.Nonce.{NonceManager}
use sonic_edge.Dex.PairCache.{PairMetadata, PairMetadataCache}
use sonic_edge.Bot.{World, Bot}
use sonic_edge.Bot.Detect.{Detects, detect_liquidity_add_iff}
use sonic_edge.Bot.Handle.{
  read, buy, execute_candidate, judge, act_on, on_candidate, with_cache, with_metadata,
  factories_for, resolve_among, resolve_candidate_pair, handle_hash,
}
use sonic_edge.Executor.TxBuilder.Built.{IsWord, ExecutorCodec}
use sonic_edge.Bot.Terms.{IsBuy, SameTrade, SameTrade-IsBuy}
use sonic_edge.Bot.Buying.{deadline_now, buy-IsBuy}
use sonic_edge.Bot.Failures.{clock, verdict, fetch_answer, answered, received, handle_hash-fetched}

nonzero : (a : ℕ) → a ≢ 0 → (a == address_zero) ≡ false
nonzero a h = ground arith

abbrev TradeIfOk : LiquidityCandidate → Result LiquidityCandidate → Type 0
TradeIfOk c r = IfOk (λ d. SameTrade c d) r

with_metadata-SameTrade :
    (c : LiquidityCandidate) (m : Option PairMetadata) → SameTrade c (with_metadata c m)
with_metadata-SameTrade c none = record {
  token = refl;
  base = refl;
  router = refl;
  stable = refl;
  amount = refl;
}
with_metadata-SameTrade c (some m) = record {
  token = refl;
  base = refl;
  router = refl;
  stable = refl;
  amount = refl;
}

module _ {w : World} where
  -- The guards before a purchase.
  pub record Clears (bot : Bot w) (c : LiquidityCandidate) : Type 0 where
    pub based : c.base ≢ 0
    pub owned : bot.tx_builder.owner ≢ 0
    pub guarded : (is_some c.pair ≡ true) ⊎ (bot.allow_execution_without_pair ≡ true)

  unguarded :
      (bot : Bot w) (c : LiquidityCandidate)
      → Clears bot c
      → (not (is_some c.pair) && not bot.allow_execution_without_pair) ≡ false
  unguarded bot c h = elim h.guarded [ inl known ↦ ground arith | inr allowed ↦ ground arith ]

  act_on-buy : (bot : Bot w) (c : LiquidityCandidate) → Clears bot c → act_on c bot ≡ buy c bot
  unfolding act_on judge execute_candidate read assess pass ◌>>=◌
  act_on-buy bot c h =
      rw (nonzero c.base h.based)
        (rw (unguarded bot c h) (rw (nonzero bot.tx_builder.owner h.owned) refl))

  on_candidate-buy :
      (bot resolved_bot : Bot w) (c c' : LiquidityCandidate)
      → resolve_candidate_pair c bot ≡ (ok c', resolved_bot)
      → Clears resolved_bot c'
      → on_candidate (some c) bot ≡ buy c' resolved_bot
  unfolding on_candidate ◌>>=◌
  on_candidate-buy bot resolved_bot c c' resolved h =
      rw (resolved, on_candidate) (act_on-buy resolved_bot c' h)

  -- What a purchase reads is what the bot had at first.
  pub record SameOrders (first bot : Bot w) : Type 0 where
    pub sent : bot.sent ≡ first.sent
    pub nonce : bot.nonce ≡ first.nonce
    pub tx_builder : bot.tx_builder ≡ first.tx_builder
    pub allowed : bot.allow_execution_without_pair ≡ first.allow_execution_without_pair
    pub deadline_secs : bot.deadline_secs ≡ first.deadline_secs

  resolve_among-SameOrders :
      (bot : Bot w) (c : LiquidityCandidate) (fs : Option (List Address))
      → SameOrders bot (resolve_among c fs bot).1
  unfolding resolve_among with_cache ◌>>=◌
  resolve_among-SameOrders bot c none = record {
    sent = refl;
    nonce = refl;
    tx_builder = refl;
    allowed = refl;
    deadline_secs = refl;
  }
  resolve_among-SameOrders bot c (some fs) = written _ _ _
    where
      written :
          (r : Result (Option PairMetadata)) (cache : PairMetadataCache w.pair_lru) (n : ℕ)
          → SameOrders bot
              (continue r
                (λ m. pure (with_metadata c m))
                (record bot { pair_cache = cache; asked = n })).1
      written (ok m) cache n = record {
        sent = refl;
        nonce = refl;
        tx_builder = refl;
        allowed = refl;
        deadline_secs = refl;
      }
      written (err e) cache n = record {
        sent = refl;
        nonce = refl;
        tx_builder = refl;
        allowed = refl;
        deadline_secs = refl;
      }
      written panic cache n = record {
        sent = refl;
        nonce = refl;
        tx_builder = refl;
        allowed = refl;
        deadline_secs = refl;
      }

  pub resolve_candidate_pair-SameOrders :
      (bot : Bot w) (c : LiquidityCandidate) → SameOrders bot (resolve_candidate_pair c bot).1
  unfolding resolve_candidate_pair read ◌>>=◌
  resolve_candidate_pair-SameOrders bot c =
      elim (Bool-cases (c.base == address_zero || is_some c.pair)) [
        | inl skip ↦
            rw (skip, resolve_candidate_pair)
              (record {
                sent = refl;
                nonce = refl;
                tx_builder = refl;
                allowed = refl;
                deadline_secs = refl;
              })
        | inr go ↦
            rw (go, resolve_candidate_pair) (resolve_among-SameOrders bot c (factories_for bot c))
      ]

  still_Clears :
      (bot first : Bot w) (c : LiquidityCandidate)
      → SameOrders first bot
      → Clears first c
      → Clears bot c
  still_Clears bot first c s h = record {
    based = h.based;
    owned = subst (λ b. b.owner ≢ 0) (sym s.tx_builder) h.owned;
    guarded = subst (λ b. (is_some c.pair ≡ true) ⊎ (b ≡ true)) (sym s.allowed) h.guarded;
  }

  -- The handling of a hash that leads to a purchase, up to the purchase.
  handle_hash-buy :
      (bot : Bot w) (hash : B256) (tx : RpcTransaction) (c c' : LiquidityCandidate)
      (resolved_bot : Bot w)
      → verdict bot hash ≡ true
      → fetch_answer bot hash ≡ ok (some tx)
      → Detects (answered bot hash) (received bot tx) c
      → resolve_candidate_pair c (answered bot hash) ≡ (ok c', resolved_bot)
      → Clears resolved_bot c'
      → handle_hash hash bot ≡ buy c' resolved_bot
  unfolding ◌>>=◌
  handle_hash-buy bot hash tx c c' resolved_bot fresh found detects resolved h =
      let detected = (detect_liquidity_add_iff (answered bot hash) (received bot tx) c).1 detects in
      handle_hash-fetched bot hash tx fresh found
      ∙ rw detected (on_candidate-buy _ resolved_bot c c' resolved h)

  resolve_among-SameTrade :
      (bot : Bot w) (c : LiquidityCandidate) (fs : Option (List Address))
      → TradeIfOk c (resolve_among c fs bot).0
  unfolding resolve_among with_cache ◌>>=◌
  resolve_among-SameTrade bot c none = with_metadata-SameTrade c none
  resolve_among-SameTrade bot c (some fs) = answer _ _
    where
      answer :
          (r : Result (Option PairMetadata)) (later : Bot w)
          → TradeIfOk c (continue r (λ m. pure (with_metadata c m)) later).0
      answer (ok m) later = with_metadata-SameTrade c m
      answer (err e) later = tt
      answer panic later = tt

  pub resolve_candidate_pair-SameTrade :
      (bot : Bot w) (c c' : LiquidityCandidate)
      → (resolve_candidate_pair c bot).0 ≡ ok c'
      → SameTrade c c'
  unfolding resolve_candidate_pair read ◌>>=◌
  resolve_candidate_pair-SameTrade bot c c' e =
      subst (TradeIfOk c) e (elim (Bool-cases (c.base == address_zero || is_some c.pair)) [
        | inl skip ↦ rw (skip, resolve_candidate_pair) (with_metadata-SameTrade c none)
        | inr go ↦
            rw (go, resolve_candidate_pair) (resolve_among-SameTrade bot c (factories_for bot c))
      ])

  -- For 64-bit fees: if the node's answer to a new hash is a transaction from which a candidate is
  -- to be detected, and the resolution of its pair returns a candidate that clears the guards, then
  -- handling the hash hands the node exactly one more transaction: with the nonce that the counter
  -- shows, the owner's call of the executor contract whose calldata is decoded to a buy of the
  -- detected candidate's token with all of its amount of the base, at its router, of its kind, for
  -- the owner, with the resolved pair or else the zero address, with bounds of zero, and with a
  -- deadline of the configured seconds after the clock's answer in seconds, within `u64`.
  pub handle_hash-buys :
      (bot : Bot w) (hash : B256) (tx : RpcTransaction) (c c' : LiquidityCandidate)
      (codec : ExecutorCodec w.executor_abi)
      → IsWord bot.tx_builder
      → verdict bot hash ≡ true
      → fetch_answer bot hash ≡ ok (some tx)
      → Detects (answered bot hash) (received bot tx) c
      → (resolve_candidate_pair c (answered bot hash)).0 ≡ ok c'
      → Clears bot c'
      → let now = clock w.env (resolve_candidate_pair c (answered bot hash)).1.asked in
        let deadline = (now / 1000 + bot.deadline_secs) % 2 ^ 64 in
        (bought : TransactionRequest) × IsBuy w.executor_abi codec bot.tx_builder c c'.pair deadline
          bot.nonce.next bought
        × ((handle_hash hash bot).1.sent ≡ bot.sent ++ bought ∷ [])
  handle_hash-buys bot hash tx c c' codec small fresh found detects resolved h =
      let resolved_bot = (resolve_candidate_pair c (answered bot hash)).1 in
      let same : SameOrders bot resolved_bot =
        let s = resolve_candidate_pair-SameOrders (answered bot hash) c in
        record {
          sent = s.sent;
          nonce = s.nonce;
          tx_builder = s.tx_builder;
          allowed = s.allowed;
          deadline_secs = s.deadline_secs;
        } in
      let step =
        handle_hash-buy bot hash tx c c' resolved_bot fresh found detects
          (ap (λ r. (r, resolved_bot)) resolved) (still_Clears resolved_bot bot c' same h) in
      let (bought, buys, state) =
        buy-IsBuy resolved_bot c' codec (subst (λ b. IsWord b) (sym same.tx_builder) small) in
      let trade = resolve_candidate_pair-SameTrade (answered bot hash) c c' resolved in
      let abi = w.executor_abi in
      let owned =
        subst
          (λ b.
            IsBuy abi codec b c' c'.pair (deadline_now resolved_bot) resolved_bot.nonce.next bought)
          same.tx_builder buys in
      let numbered =
        subst
          (λ (m : NonceManager).
            IsBuy abi codec bot.tx_builder c' c'.pair (deadline_now resolved_bot) m.next bought)
          same.nonce owned in
      let timed =
        subst
          (λ (secs : ℕ).
            IsBuy abi codec bot.tx_builder c' c'.pair
              ((clock w.env resolved_bot.asked / 1000 + secs) % 2 ^ 64) bot.nonce.next bought)
          same.deadline_secs numbered in
      (
        bought,
        SameTrade-IsBuy w.executor_abi codec bot.tx_builder c c' c'.pair _ bot.nonce.next bought
            trade timed,
        ap (λ o. o.1.sent) step
            ∙ state
            ∙ ap (λ (xs : List TransactionRequest). xs ++ bought ∷ []) same.sent,
      )
