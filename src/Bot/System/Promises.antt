-- ===== src/Bot/System/Promises.antt =====
-- What the bot and its tasks promise, however their steps alternate.
use sonic_edge.Base.{
  ◌<◌, ℕ, ◌≤◌, ◌≡◌, ◌≢◌, ◌∙◌, ap, subst, refl, ◌↔◌, ◌⊎◌, true, Option, none, some, List, [], ◌++◌,
  arith, length, All,
}
use sonic_edge.Exec.{Result, ok, panic}
use sonic_edge.Core.Types.{B256}
use sonic_edge.Core.Config.{MempoolConfig}
use sonic_edge.Core.Parse.{contains_text}
use sonic_edge.Chain.Channel.{Mpsc}
use sonic_edge.Chain.Reconnect.{ReconnectConfig}
use sonic_edge.Chain.Task.{Phase, PollPhase, Poll, on_item}
use sonic_edge.Chain.Task.Gone.{on_item-dropped}
use sonic_edge.Bot.{World, Bot}
use sonic_edge.Bot.Handle.{run}
use sonic_edge.Bot.Ledger.{IsPurchase, run-IsPurchase}
use sonic_edge.Bot.System.{
  Status, running, stopped, System, Step, Reach, launch, launch_poll, reconnect_config, txpool_text,
}
use sonic_edge.Bot.System.Received.{from_pending, from_txpool, from_heads}
use sonic_edge.Bot.System.Sound.{Polls, Sound}
use sonic_edge.Bot.System.Launched.{launched-IsSound}

-- The answer of a run that has got so far.
abbrev pub outcome : Status → Result (Unit {0})
outcome running = ok tt
outcome (stopped r) = r

still_running :
    {status : Status} {r : Result (Unit {0})} → status ≡ running → status ≡ stopped r → ⊥
still_running p q = ground arith

module _ (hashes : Mpsc B256) where
  -- The items of a poll, if there is one, passed on in order.
  abbrev pub PollInOrder : List B256 → Option (Poll hashes) → Type 0
  PollInOrder taken none = taken ≡ []
  PollInOrder taken (some poll) =
      (taken ++ hashes.items poll.channel.chan ≡ poll.accepted_items)
      × (length (hashes.items poll.channel.chan) ≤ hashes.cap poll.channel.chan)
      × (poll.phase ≢ PollPhase.returned)

module _ {w : World} (hashes : Mpsc B256) (numbers : Mpsc ℕ) where
  ran-Sound :
      (bot : Bot w) (status : Status) (s : System w hashes numbers)
      → Sound hashes numbers bot status s
      → run s.received bot ≡ (outcome status, s.bot)
  ran-Sound bot running s h = h.ran
  ran-Sound bot (stopped r) s h = h.ran

  -- However the steps of the bot and of the tasks alternate, and whatever the node answers them:
  -- the bot is where the loop over the deliveries received so far, in their order, leaves it, and
  -- if it has stopped, it is with the answer of that loop.
  pub Reach-run :
      (cfg : MempoolConfig) (bot : Bot w) (start s : System w hashes numbers)
      → launch w hashes numbers cfg bot ≡ ok start
      → Reach w hashes numbers (reconnect_config cfg) start s
      → run s.received bot ≡ (outcome s.status, s.bot)
  Reach-run cfg bot start s made reached =
      ran-Sound bot s.status s (launched-IsSound hashes numbers bot cfg start s made reached)

  -- Where reserve bounds of zero fit in the executor's words, in every state that a launched bot
  -- which has sent nothing gets to, however its steps and those of the tasks alternate, all that it
  -- has handed the node are purchases, as the builder makes them, of authorized candidates.
  pub Reach-IsPurchase :
      (cfg : MempoolConfig) (bot : Bot w) (start s : System w hashes numbers)
      → launch w hashes numbers cfg bot ≡ ok start
      → Reach w hashes numbers (reconnect_config cfg) start s
      → w.executor_abi.u112_from 0 ≡ some 0
      → bot.sent ≡ []
      → All (IsPurchase bot) s.bot.sent
  Reach-IsPurchase cfg bot start s made reached zero_fits none_sent =
      subst (λ b. All (IsPurchase bot) b.sent)
        (ap (λ o. o.1) (Reach-run cfg bot start s made reached))
        (run-IsPurchase bot s.received zero_fits none_sent)

  poll_in_order :
      (bot : Bot w) (taken : List B256) (o : Option (Poll hashes))
      → Polls hashes numbers bot taken o
      → PollInOrder hashes taken o
  poll_in_order bot taken none h = h
  poll_in_order bot taken (some poll) h = (h.passing.in_order, h.passing.bounded, h.running)

  -- While the loop runs, in every state that it and the tasks get to: what was received from each
  -- channel, and then the items in it, are the items that the channel has accepted, in order, none
  -- lost and none twice; no channel holds more than its capacity; and no task has returned, so that
  -- no channel is ever closed to the loop.
  pub Reach-in_order :
      (cfg : MempoolConfig) (bot : Bot w) (start s : System w hashes numbers)
      → launch w hashes numbers cfg bot ≡ ok start
      → Reach w hashes numbers (reconnect_config cfg) start s
      → s.status ≡ running
      → ((from_pending s.received ++ hashes.items s.pending.channel.chan ≡ s.pending.accepted_items)
          × (length (hashes.items s.pending.channel.chan) ≤ hashes.cap s.pending.channel.chan)
          × (s.pending.phase ≢ Phase.returned))
        × ((from_heads s.received ++ numbers.items s.heads.channel.chan ≡ s.heads.accepted_items)
            × (length (numbers.items s.heads.channel.chan) ≤ numbers.cap s.heads.channel.chan)
            × (s.heads.phase ≢ Phase.returned))
        × PollInOrder hashes (from_txpool s.received) s.txpool
  Reach-in_order cfg bot start s made reached going =
      let sound = launched-IsSound hashes numbers bot cfg start s made reached in
      let h = subst (λ status. Sound hashes numbers bot status s) going sound in
      let p = h.tasks.pending in
      let q = h.tasks.heads in
      (
        (p.passing.in_order, p.passing.bounded, p.running),
        (q.passing.in_order, q.passing.bounded, q.running),
        poll_in_order bot _ s.txpool h.tasks.txpool,
      )

  -- The bot stays as it is, and so does its answer.
  record SameEnd (s s' : System w hashes numbers) : Type 0 where
    pub bot : s'.bot ≡ s.bot
    pub status : s'.status ≡ s.status
    pub received : s'.received ≡ s.received

  Step-SameEnd :
      (cfg : ReconnectConfig) (r : Result (Unit {0})) (s s' : System w hashes numbers)
      → s.status ≡ stopped r
      → Step w hashes numbers cfg s s'
      → SameEnd s s'
  Step-SameEnd cfg r s _ over (Step.pending_task step) = record {
    bot = refl;
    status = refl;
    received = refl;
  }
  Step-SameEnd cfg r s _ over (Step.heads_task step) = record {
    bot = refl;
    status = refl;
    received = refl;
  }
  Step-SameEnd cfg r s _ over (Step.txpool_task there step) = record {
    bot = refl;
    status = refl;
    received = refl;
  }
  Step-SameEnd cfg r s _ over (Step.select_pending hash going got) =
      absurd (still_running going over)
  Step-SameEnd cfg r s _ over (Step.select_txpool hash going there got) =
      absurd (still_running going over)
  Step-SameEnd cfg r s _ over (Step.select_head number going got) =
      absurd (still_running going over)

  later-SameEnd :
      (cfg : ReconnectConfig) (r : Result (Unit {0})) (s s' : System w hashes numbers)
      → s.status ≡ stopped r
      → Reach w hashes numbers cfg s s'
      → SameEnd s s'
  later-SameEnd cfg r s _ over Reach.launched = record {
    bot = refl;
    status = refl;
    received = refl;
  }
  later-SameEnd cfg r s _ over (Reach.later {s = t} {t = u} before step) =
      let h = later-SameEnd cfg r s t over before in
      let k = Step-SameEnd cfg r t u (h.status ∙ over) step in
      record {
        bot = k.bot ∙ h.bot;
        status = k.status ∙ h.status;
        received = k.received ∙ h.received;
      }

  -- `run` never returns `Ok`: once it has stopped, it is with an error or a panic, which stays its
  -- answer, the bot receives and does nothing more, whatever the tasks still do, and the next item
  -- of either stream ends its task.
  pub Reach-stopped :
      (cfg : MempoolConfig) (bot : Bot w) (start s later : System w hashes numbers)
      (r : Result (Unit {0})) (hash : B256) (number : ℕ)
      → launch w hashes numbers cfg bot ≡ ok start
      → Reach w hashes numbers (reconnect_config cfg) start s
      → s.status ≡ stopped r
      → Reach w hashes numbers (reconnect_config cfg) s later
      → (r ≢ ok tt)
        × ((later.status ≡ stopped r) × (later.bot ≡ s.bot) × (later.received ≡ s.received))
        × (((on_item hashes hash s.pending).phase ≡ Phase.returned)
            × ((on_item numbers number s.heads).phase ≡ Phase.returned))
  Reach-stopped cfg bot start s later r hash number made reached over after =
      let sound = launched-IsSound hashes numbers bot cfg start s made reached in
      let h = subst (λ status. Sound hashes numbers bot status s) over sound in
      let k = later-SameEnd (reconnect_config cfg) r s later over after in
      (
        h.failed,
        (k.status ∙ over, k.bot, k.received),
        (
          on_item-dropped hashes hash s.pending h.pending,
          on_item-dropped numbers number s.heads h.heads,
        ),
      )

  -- The launch unwinds exactly for a configured channel capacity of zero or above tokio's limit of
  -- 2^61 - 1 or, where the mode names the pool, a polling period of zero.
  pub launch-panic_iff :
      (cfg : MempoolConfig) (bot : Bot w)
      → (launch w hashes numbers cfg bot ≡ panic) ↔ (
          (cfg.fetch_concurrency ≡ 0)
          ⊎ ((2_305_843_009_213_693_951 < cfg.fetch_concurrency)
              ⊎ ((contains_text cfg.mode txpool_text ≡ true) × (cfg.txpool_poll_ms ≡ 0))))
  unfolding launch launch_poll
  launch-panic_iff cfg bot = ground arith
