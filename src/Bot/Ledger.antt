-- ===== src/Bot/Ledger.antt =====
-- What the node is handed over a run of the bot: only authorized purchases, under consecutive
-- nonces.
use sonic_edge.Base.{
  ℕ, suc, ◌+◌, ◌^◌, ◌≤◌, ◌≡◌, ◌∙◌, sym, ap, subst, refl, Option, some, List, [], ◌∷◌, ◌++◌, map,
  length, length-snoc, All, All-snoc,
}
use mathlib.Core.List.{map-append}
use mathlib.Core.Path.{ap₂}
use sonic_edge.Exec.{ok}
use sonic_edge.Exec.Ensures.{Ensures, Any, Ensures-pure, Ensures-bind}
use sonic_edge.Core.Types.{B256, LiquidityCandidate, TransactionRequest}
use sonic_edge.Core.Dedupe.{DedupeCache}
use sonic_edge.Dex.PairCache.{PairMetadataCache}
use sonic_edge.Executor.Nonce.{
  NonceManager, new, next_nonce, take_nonces, after_nonces, after_nonces-suc, take_nonces-suc,
  count_from, take_nonces-eq-count_from,
}
use sonic_edge.Bot.{World, Bot}
use sonic_edge.Bot.Handle.{Delivery, check_hash, buy_tx, buy, handle_hash, run}
use sonic_edge.Bot.Kept.{SameSettings, IsAuthorized, IsKept, query-Ensures, on_checked-Ensures}
use sonic_edge.Bot.Buying.{deadline_now, buy_state}

module _ {w : World} (start : Bot w) where
  -- The transaction buys an authorized candidate.
  pub record IsPurchase (tx : TransactionRequest) : Type 0 where
    pub candidate : LiquidityCandidate
    pub deadline : ℕ
    pub nonce : ℕ
    pub made : buy_tx w.executor_abi start.tx_builder candidate deadline nonce ≡ ok tx
    pub authorized : IsAuthorized start candidate

  pub record IsLedger (bot : Bot w) : Type 0 where
    pub settings : SameSettings start bot
    pub purchases : All IsPurchase bot.sent
    pub nonces :
        map (λ tx. tx.nonce) bot.sent ≡ map some (take_nonces (length bot.sent) start.nonce)
    pub next : bot.nonce ≡ after_nonces (length bot.sent) start.nonce

  -- The ledger reads neither the caches nor the counters.
  frame :
      (bot : Bot w) (c : PairMetadataCache w.pair_lru) (d : DedupeCache w.dedupe_lru)
      (hits : Option ℕ) (n : ℕ)
      → IsLedger bot
      → IsLedger (record bot { pair_cache = c; dedupe = d; dedup_hits = hits; asked = n })
  frame bot c d hits n h = record {
    settings = record {
      routers = h.settings.routers;
      base_tokens = h.settings.base_tokens;
      min_base_amount = h.settings.min_base_amount;
      tx_builder = h.settings.tx_builder;
      allowed = h.settings.allowed;
      router_factories = h.settings.router_factories;
      timeout = h.settings.timeout;
      deadline_secs = h.settings.deadline_secs;
    };
    purchases = h.purchases;
    nonces = h.nonces;
    next = h.next;
  }

  after_buy :
      (bot : Bot w)
      → IsLedger bot
      → (next_nonce bot.nonce).1 ≡ after_nonces (suc (length bot.sent)) start.nonce
  after_buy bot h =
      ap (λ m. (next_nonce m).1) h.next ∙ sym (after_nonces-suc (length bot.sent) start.nonce)

  nonces_after :
      (bot : Bot w) (tx : TransactionRequest)
      → IsLedger bot
      → tx.nonce ≡ some bot.nonce.next
      → map (λ (t : TransactionRequest). t.nonce) (bot.sent ++ tx ∷ [])
        ≡ map some (take_nonces (suc (length bot.sent)) start.nonce)
  unfolding next_nonce
  nonces_after bot tx h numbered =
      let k = length bot.sent in
      let shown : tx.nonce ≡ some (after_nonces k start.nonce).next =
        numbered ∙ ap (λ (m : NonceManager). some m.next) h.next in
      map-append (λ (t : TransactionRequest). t.nonce) bot.sent (tx ∷ [])
      ∙ ap₂ (λ (a b : List (Option ℕ)). a ++ b) h.nonces (ap (λ o. o ∷ []) shown)
      ∙ sym (map-append some (take_nonces k start.nonce) _)
      ∙ ap (map some) (sym (take_nonces-suc k start.nonce))

  buy-IsLedger :
      (bot : Bot w) (c : LiquidityCandidate)
      → w.executor_abi.u112_from 0 ≡ some 0
      → IsLedger bot
      → IsAuthorized start c
      → IsLedger (buy c bot).1
  buy-IsLedger bot c zero_fits h a =
      let (tx, made, numbered, state) = buy_state bot c zero_fits in
      let k = length bot.sent in
      rw state (record {
        settings = record {
          routers = h.settings.routers;
          base_tokens = h.settings.base_tokens;
          min_base_amount = h.settings.min_base_amount;
          tx_builder = h.settings.tx_builder;
          allowed = h.settings.allowed;
          router_factories = h.settings.router_factories;
          timeout = h.settings.timeout;
          deadline_secs = h.settings.deadline_secs;
        };
        purchases = All-snoc IsPurchase bot.sent tx h.purchases (record {
          candidate = c;
          deadline = deadline_now bot;
          nonce = bot.nonce.next;
          made =
              subst (λ b. buy_tx w.executor_abi b c (deadline_now bot) bot.nonce.next ≡ ok tx)
                h.settings.tx_builder made;
          authorized = a;
        });
        nonces = rw (length-snoc bot.sent tx) (nonces_after bot tx h numbered);
        next = rw (length-snoc bot.sent tx) (after_buy bot h);
      })

  -- Each step of handling a hash keeps the ledger.
  IsLedger-IsKept : w.executor_abi.u112_from 0 ≡ some 0 → IsKept start IsLedger
  IsLedger-IsKept zero_fits = record {
    settings = λ bot h. h.settings;
    asked = λ bot n h. frame bot bot.pair_cache bot.dedupe bot.dedup_hits n h;
    cached = λ bot c n h. frame bot c bot.dedupe bot.dedup_hits n h;
    counted = λ bot n h. frame bot bot.pair_cache bot.dedupe n bot.asked h;
    bought = λ bot c h a. buy-IsLedger bot c zero_fits h a;
  }

  check_hash-Ensures : (hash : B256) (now : ℕ) → Ensures IsLedger Any (check_hash hash now)
  unfolding check_hash
  check_hash-Ensures hash now = record {
    at = λ s h. (frame s s.pair_cache _ s.dedup_hits s.asked h, tt);
  }

  module _ (zero_fits : w.executor_abi.u112_from 0 ≡ some 0) where
    handle_hash-Ensures : (hash : B256) → Ensures IsLedger Any (handle_hash hash)
    unfolding handle_hash
    handle_hash-Ensures hash =
        Ensures-bind IsLedger Any Any _ _ (query-Ensures start (IsLedger-IsKept zero_fits) _)
          λ now _.
            Ensures-bind IsLedger Any Any _ _ (check_hash-Ensures hash now)
              λ fresh _. on_checked-Ensures start (IsLedger-IsKept zero_fits) hash fresh

    run-Ensures : (deliveries : List Delivery) → Ensures IsLedger Any (run deliveries)
    unfolding run
    run-Ensures [] = Ensures-pure tt tt
    run-Ensures (Delivery.pending hash ∷ rest) =
        Ensures-bind IsLedger Any Any _ _ (handle_hash-Ensures hash) (λ _ _. run-Ensures rest)
    run-Ensures (Delivery.txpool hash ∷ rest) =
        Ensures-bind IsLedger Any Any _ _ (handle_hash-Ensures hash) (λ _ _. run-Ensures rest)
    run-Ensures (Delivery.head number ∷ rest) = run-Ensures rest

  opening : start.sent ≡ [] → IsLedger start
  unfolding take_nonces after_nonces
  opening none_sent = record {
    settings = record {
      routers = refl;
      base_tokens = refl;
      min_base_amount = refl;
      tx_builder = refl;
      allowed = refl;
      router_factories = refl;
      timeout = refl;
      deadline_secs = refl;
    };
    purchases = subst (All IsPurchase) (sym none_sent) tt;
    nonces = rw none_sent refl;
    next = rw none_sent refl;
  }

  -- Where reserve bounds of zero fit in the executor's words, every transaction that a run from a
  -- bot that has sent nothing hands to the node, whatever arrives, whatever the node answers and
  -- however the run ends, is a purchase, as the builder makes it, of a candidate of a watched
  -- router with a base token of at least the least amount and not the native token, for an owner
  -- that is configured, whose pair is known unless the settings allow to go without it.
  pub run-IsPurchase :
      (deliveries : List Delivery)
      → w.executor_abi.u112_from 0 ≡ some 0
      → start.sent ≡ []
      → All IsPurchase (run deliveries start).1.sent
  run-IsPurchase deliveries zero_fits none_sent =
      ((run-Ensures zero_fits deliveries).at start (opening none_sent)).0.purchases

  -- Where reserve bounds of zero fit in the executor's words and the bot has sent nothing yet, and
  -- while the counter stays within `u64`, the transactions of a run carry the nonces from the
  -- counter's start on, in order, none twice and none left out.
  pub run-nonces :
      (deliveries : List Delivery)
      → w.executor_abi.u112_from 0 ≡ some 0
      → start.sent ≡ []
      → start.nonce.next + length (run deliveries start).1.sent ≤ 2 ^ 64
      → map (λ tx. tx.nonce) (run deliveries start).1.sent
        ≡ map some (count_from (length (run deliveries start).1.sent) start.nonce.next)
  unfolding new
  run-nonces deliveries zero_fits none_sent fits =
      let h = ((run-Ensures zero_fits deliveries).at start (opening none_sent)).0 in
      h.nonces ∙ ap (map some) (take_nonces-eq-count_from _ start.nonce.next fits)
