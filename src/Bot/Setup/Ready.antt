-- ===== src/Bot/Setup/Ready.antt =====
-- What a bot that was just made is, and its runs.
use sonic_edge.Base.{
  ℕ, ◌^◌, ◌<◌, ◌≡◌, ◌∙◌, ap, refl, subst, Option, some, List, [], arith, map, max, length,
}
use sonic_edge.Exec.{Result, ok, err, panic, and_then}
use sonic_edge.Core.Types.{Address, B256, U256}
use sonic_edge.Core.Dedupe
use sonic_edge.Executor.TxBuilder.{ExecutorTxBuilder}
use sonic_edge.Core.Config.{AppConfig}
use sonic_edge.Core.Parse.{Conversions, parse_address, parse_u256_decimal}
use sonic_edge.Core.Dedupe.Check.{IsBounded, new-IsBounded}
use sonic_edge.Dex.PairCache
use sonic_edge.Dex.PairCache.Entries.{IsSized}
use sonic_edge.Executor.Nonce
use sonic_edge.Executor.Nonce.{count_from}
use sonic_edge.Chain.Client.{connect}
use sonic_edge.Bot.{World, Bot}
use sonic_edge.Bot.Handle.{Delivery, run}
use sonic_edge.Bot.Ledger.{run-nonces}
use sonic_edge.Bot.Setup.{
  Host, collect, router_factories, pair_code_hashes, tx_builder, metrics, assembled, new,
}

module _ {w : World} (cfg : AppConfig) where
  pub record IsReady (bot : Bot w) : Type 0 where
    pub dedupe : IsBounded w.dedupe_lru bot.dedupe
    pub window : bot.dedupe.ttl_ms ≡ cfg.mempool.dedup_ttl_ms
    pub pairs :
        IsSized w.pair_lru
          (max cfg.dex.pair_cache_capacity 1)
          cfg.dex.pair_cache_ttl_ms
          cfg.dex.pair_cache_negative_ttl_ms
          bot.pair_cache
    pub counter : bot.nonce.next ≡ 0
    pub unsent : bot.sent ≡ []

and_then_ok :
    {A B : Type 0} (P : B → Type 0) (r : Result A) (f : A → Result B) (b : B)
    → and_then r f ≡ ok b
    → ((a : A) → f a ≡ ok b → P b)
    → P b
and_then_ok P (ok a) f b h k = k a h
and_then_ok P (err e) f b h k = absurd (ground arith)
and_then_ok P panic f b h k = absurd (ground arith)

abbrev ok_or : {A : Type 0} → A → Result A → A
ok_or d (ok a) = a
ok_or d (err e) = d
ok_or d panic = d

assembled-IsReady :
    {w : World} (cfg : AppConfig) (routers factories : List Address)
    (mapped : List (Address × Address)) (hashes : List (Address × B256))
    (base_tokens : List Address) (builder : ExecutorTxBuilder) (least : U256) (hits : Option ℕ)
    → IsReady cfg (assembled w cfg routers factories mapped hashes base_tokens builder least hits)
unfolding assembled Dedupe.new PairCache.new Nonce.new
assembled-IsReady {w} cfg routers factories mapped hashes base_tokens builder least hits = record {
  dedupe = (new-IsBounded w.dedupe_lru cfg.mempool.dedup_capacity cfg.mempool.dedup_ttl_ms).0;
  window = refl;
  pairs = record {
    capacity = w.pair_lru.cap-new _;
    bounded = rw (w.pair_lru.entries-new (max cfg.dex.pair_cache_capacity 1)) (omega arith);
    positive_ttl = refl;
    negative_ttl = refl;
  };
  counter = refl;
  unsent = refl;
}

module _ (conv : Conversions) (host : Host) {w : World} (cfg : AppConfig) where
  -- Whatever is configured, a bot that was made has bounded caches, the configured window and times
  -- to live, a counter at zero, and has sent nothing.
  pub new-IsReady : (bot : Bot w) → new conv host w cfg ≡ ok bot → IsReady cfg bot
  unfolding new
  new-IsReady bot made =
      and_then_ok (IsReady cfg) (connect host.provider cfg.chain) _ bot made λ _ h1.
        and_then_ok (IsReady cfg) (collect (parse_address conv) cfg.dex.routers) _ bot h1
          λ routers h2.
            and_then_ok (IsReady cfg) (collect (parse_address conv) cfg.dex.factories) _ bot h2
              λ factories h3.
                and_then_ok (IsReady cfg) (router_factories conv [] cfg.dex.router_factories) _ bot
                  h3
                  λ mapped h4.
                    and_then_ok (IsReady cfg)
                      (pair_code_hashes conv [] cfg.dex.factory_pair_code_hashes) _ bot h4
                      λ hashes h5.
                        and_then_ok (IsReady cfg) (collect (parse_address conv) cfg.dex.base_tokens)
                          _ bot h5
                          λ base_tokens h6.
                            and_then_ok (IsReady cfg) (tx_builder conv host cfg) _ bot h6
                              λ builder h7.
                                and_then_ok (IsReady cfg)
                                  (parse_u256_decimal conv cfg.dex.min_base_amount) _ bot h7
                                  λ least h8.
                                    and_then_ok (IsReady cfg)
                                      (metrics host cfg.observability.metrics_enabled) _ bot h8
                                      λ hits h9. subst (IsReady cfg) (ap (ok_or bot) h9) (
                                        assembled-IsReady cfg routers factories mapped hashes
                                          base_tokens builder least hits)

  -- Where reserve bounds of zero fit in the executor's words, the transactions that a run of a new
  -- bot hands to the node, fewer than 2^64, are numbered from zero on, whatever the number of
  -- transactions of the owner's account is.
  pub new-run_nonces :
      (bot : Bot w) (deliveries : List Delivery)
      → new conv host w cfg ≡ ok bot
      → w.executor_abi.u112_from 0 ≡ some 0
      → length (run deliveries bot).1.sent < 2 ^ 64
      → map (λ tx. tx.nonce) (run deliveries bot).1.sent
        ≡ map some (count_from (length (run deliveries bot).1.sent) 0)
  new-run_nonces bot deliveries made zero_fits few =
      let ready = new-IsReady bot made in
      run-nonces bot deliveries zero_fits ready.unsent (omega (arith, ready.counter))
      ∙ ap (λ n. map some (count_from (length (run deliveries bot).1.sent) n)) ready.counter
