-- ===== src/App/Running.antt =====
-- bins/sniper/src/main.rs: the `run` command, from its configuration file to what it sends.
use sonic_edge.Base.{ℕ, ◌^◌, ◌<◌, ◌≡◌, ◌∙◌, sym, ap, subst, some, map, length, All}
use sonic_edge.Exec.{ok, and_then}
use sonic_edge.Core.Types.{B256}
use sonic_edge.Core.Config.{Text, AppConfig}
use sonic_edge.Core.Parse.{Conversions}
use sonic_edge.Chain.Channel.{Mpsc}
use sonic_edge.Executor.Nonce.{count_from}
use sonic_edge.Bot.{World, Bot}
use sonic_edge.Bot.Handle.{run}
use sonic_edge.Bot.Ledger.{IsPurchase}
use sonic_edge.Bot.Setup
use sonic_edge.Bot.Setup.{Host}
use sonic_edge.Bot.Setup.Ready.{new-IsReady, new-run_nonces}
use sonic_edge.Bot.System.{System, Reach, launch, reconnect_config}
use sonic_edge.Bot.System.Promises.{Reach-run, Reach-IsPurchase}
use sonic_edge.App.{Shell, bot_of}

-- Where reserve bounds of zero fit in the executor's words: in every state that the `run` command
-- gets to from its configuration, however the steps of the bot and of the tasks alternate and
-- whatever the clock and the node answer, all that was handed to the node, fewer than 2^64
-- transactions, are purchases of authorized candidates, under the nonces from zero on.
pub bot_of-sends :
    (shell : Shell) (conv : Conversions) (host : Host) {w : World} (hashes : Mpsc B256)
    (numbers : Mpsc ℕ) (path : Text) (cfg : AppConfig) (bot : Bot w)
    (start s : System w hashes numbers)
    → shell.load path ≡ ok cfg
    → bot_of shell conv host w path ≡ ok bot
    → launch w hashes numbers cfg.mempool bot ≡ ok start
    → Reach w hashes numbers (reconnect_config cfg.mempool) start s
    → w.executor_abi.u112_from 0 ≡ some 0
    → length s.bot.sent < 2 ^ 64
    → All (IsPurchase bot) s.bot.sent
      × (map (λ tx. tx.nonce) s.bot.sent ≡ map some (count_from (length s.bot.sent) 0))
unfolding bot_of
bot_of-sends shell conv host {w} hashes numbers path cfg bot start s loaded made launched reached
      zero_fits few =
    let new_bot : Setup.new conv host w cfg ≡ ok bot =
      sym (ap (λ r. and_then r (Setup.new conv host w)) loaded) ∙ made in
    let ready = new-IsReady conv host cfg bot new_bot in
    let same : (run s.received bot).1 ≡ s.bot =
      ap (λ o. o.1) (Reach-run hashes numbers cfg.mempool bot start s launched reached) in
    (
      Reach-IsPurchase hashes numbers cfg.mempool bot start s launched reached zero_fits
          ready.unsent,
      subst (λ (b : Bot w). map (λ tx. tx.nonce) b.sent ≡ map some (count_from (length b.sent) 0))
          same
          (new-run_nonces conv host cfg bot s.received new_bot zero_fits
            (subst (λ (b : Bot w). length b.sent < 2 ^ 64) (sym same) few)),
    )
