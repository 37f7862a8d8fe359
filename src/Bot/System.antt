-- ===== src/Bot/System.antt =====
-- crates/bot/src/orchestrator.rs: `run`, with the tasks of the streams that it spawns. The bot
-- and each task go on in steps that alternate in any way. What the loop received is handled in one
-- step: meanwhile the tasks only send into their channels, which handling does not read.
pub mod Received
pub mod Sound
pub mod Reached
pub mod Launched
pub mod Promises
use sonic_edge.Base.{ℕ, ◌≡◌, Option, none, some, List, [], ◌∷◌, ◌++◌, ◌==◌, if◌then◌else◌}
use sonic_edge.Exec.{Result, ok, err, panic, and_then, Exec, pure}
use sonic_edge.Core.Types.{B256}
use sonic_edge.Core.Config.{Text, text, MempoolConfig}
use sonic_edge.Core.Parse.{contains_text}
use sonic_edge.Chain.Channel.{Mpsc, is_refused, recv, dropped_receiver}
use sonic_edge.Chain.Reconnect
use sonic_edge.Chain.Reconnect.{ReconnectConfig}
use sonic_edge.Chain.Task.{Stream, Poll, spawn, spawn_poll, PendingStep, HeadStep, PollStep}
use sonic_edge.Bot.{World, Bot}
use sonic_edge.Bot.Handle.{Delivery, handle_hash}

-- The loop runs, or `run` has returned or unwound.
pub data Status : Type 0 where
  running : Status
  stopped : Result (Unit {0}) → Status

abbrev pub txpool_text : Text
txpool_text = text "txpool"

-- A gauge or a counter of the streams, which is there with the metrics.
abbrev pub gauge : {w : World} → Bot w → Option ℕ
gauge bot = elim bot.dedup_hits [ none ↦ none | some n ↦ some 0 ]

abbrev pub reconnect_config : MempoolConfig → ReconnectConfig
reconnect_config cfg = Reconnect.new cfg.ws_reconnect_base_ms cfg.ws_reconnect_max_ms

-- The branch of `select!` that received the item, whose answer `?` leaves the loop with if it is an
-- error.
unfoldable pub deliver : {w : World} → Delivery → Exec (Bot w) (Unit {0})
deliver (Delivery.pending hash) = handle_hash hash
deliver (Delivery.txpool hash) = handle_hash hash
deliver (Delivery.head number) = pure tt

module _ (w : World) (hashes : Mpsc B256) (numbers : Mpsc ℕ) where
  -- The tasks, the bot, and what the loop has received so far.
  pub record System : Type 0 where
    pub pending : Stream hashes
    pub heads : Stream numbers
    pub txpool : Option (Poll hashes)
    pub bot : Bot w
    pub status : Status
    pub received : List Delivery

  -- `interval` unwinds for a period of zero.
  unfoldable pub launch_poll : MempoolConfig → Option ℕ → Result (Option (Poll hashes))
  launch_poll cfg metric =
      if contains_text cfg.mode txpool_text
      then if cfg.txpool_poll_ms == 0
        then panic
        else ok (some (spawn_poll hashes 1024 metric metric))
      else ok none

  -- `mpsc::channel` unwinds for a capacity that it refuses.
  unfoldable pub launch : MempoolConfig → Bot w → Result System
  unfolding launch_poll
  launch cfg bot =
      if is_refused cfg.fetch_concurrency
      then panic
      else and_then (launch_poll cfg (gauge bot)) λ poll. ok (record {
        pending = spawn hashes (reconnect_config cfg) cfg.fetch_concurrency (gauge bot) (gauge bot);
        heads = spawn numbers (reconnect_config cfg) 128 (gauge bot) (gauge bot);
        txpool = poll;
        bot = bot;
        status = running;
        received = [];
      })

  -- The receivers go with the frame of `run`.
  unfoldable pub stop : Result (Unit {0}) → System → System
  stop r s = record s {
    status = stopped r;
    pending = record (s.pending) { channel = dropped_receiver hashes s.pending.channel };
    heads = record (s.heads) { channel = dropped_receiver numbers s.heads.channel };
    txpool = elim s.txpool [
      | none ↦ none
      | some poll ↦ some (record poll { channel = dropped_receiver hashes poll.channel })
    ];
  }

  abbrev go_on : Result (Unit {0}) → System → System
  go_on (ok _) s = s
  go_on (err e) s = stop (err e) s
  go_on panic s = stop panic s

  unfoldable pub handled : Delivery → System → System
  unfolding deliver stop
  handled d s =
      go_on (deliver d s.bot).0
        (record s { bot = (deliver d s.bot).1; received = s.received ++ d ∷ [] })

  -- A branch of `select!` whose pattern does not match is disabled: a branch is taken with an item.
  pub data Step (cfg : ReconnectConfig) (s : System) : System → Type 0 where
    pending_task :
        {p : Stream hashes}
        → PendingStep hashes cfg s.pending p
        → Step cfg s (record s { pending = p })
    heads_task :
        {p : Stream numbers} → HeadStep numbers cfg s.heads p → Step cfg s (record s { heads = p })
    txpool_task :
        {p p' : Poll hashes}
        → s.txpool ≡ some p
        → PollStep hashes p p'
        → Step cfg s (record s { txpool = some p' })
    select_pending :
        (hash : B256)
        → s.status ≡ running
        → (recv hashes s.pending.channel).0 ≡ some hash
        → Step cfg s (
            handled (Delivery.pending hash) (record s {
              pending = record (s.pending) { channel = (recv hashes s.pending.channel).1 };
            }))
    select_txpool :
        (hash : B256) {p : Poll hashes}
        → s.status ≡ running
        → s.txpool ≡ some p
        → (recv hashes p.channel).0 ≡ some hash
        → Step cfg s (
            handled
              (Delivery.txpool hash)
              (record s { txpool = some (record p { channel = (recv hashes p.channel).1 }) }))
    select_head :
        (number : ℕ)
        → s.status ≡ running
        → (recv numbers s.heads.channel).0 ≡ some number
        → Step cfg s (
            handled (Delivery.head number) (record s {
              heads = record (s.heads) { channel = (recv numbers s.heads.channel).1 };
            }))

  -- The states that a launched system gets to.
  pub data Reach (cfg : ReconnectConfig) (first : System) : System → Type 0 where
    launched : Reach cfg first first
    later : {s t : System} → Reach cfg first s → Step cfg s t → Reach cfg first t
