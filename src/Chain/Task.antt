-- ===== src/Chain/Task.antt =====
-- crates/chain/src/pending.rs and heads.rs: the task that follows a subscription. txpool.rs: the
-- task that polls the pool. A task goes on from one await to the next in one step.
pub mod Alive
pub mod Gone
use sonic_edge.Base.{ℕ, ◌≡◌, Option, none, some, List, [], ◌∷◌, ◌++◌}
use sonic_edge.Chain.Channel.{accepted, full, closed, Mpsc, Tracked, tracked_channel, try_send}
use sonic_edge.Chain.Channel.Passing.{if_accepted}
use sonic_edge.Chain.Reconnect.{ReconnectConfig, next_backoff}
use sonic_edge.Chain.Streams.{hashes}

-- What the task waits for: the answer to its subscription, the next item, or the end of its sleep.
-- A task that has returned has dropped its sender.
pub data Phase : Type 0 where
  subscribing listening sleeping returned : Phase

-- A header of the node, as far as it is read.
pub record Header : Type 0 where
  pub number : ℕ

module _ {T : Type 0} (mpsc : Mpsc T) where
  -- The task, its channel, and the items that the channel has accepted so far.
  pub record Stream : Type 0 where
    pub phase : Phase
    pub backoff : ℕ
    pub channel : Tracked mpsc
    pub accepted_items : List T

  unfoldable pub spawn : ReconnectConfig → ℕ → Option ℕ → Option ℕ → Stream
  spawn cfg channel_size queue_depth dropped = record {
    phase = Phase.subscribing;
    backoff = cfg.base_delay;
    channel = tracked_channel mpsc channel_size queue_depth dropped;
    accepted_items = [];
  }

  -- The answer to the subscription.
  unfoldable pub on_subscribed : ReconnectConfig → Stream → Stream
  on_subscribed cfg s = record s { phase = Phase.listening; backoff = cfg.base_delay }

  unfoldable pub on_refused : Stream → Stream
  on_refused s = record s { phase = Phase.sleeping }

  -- An item; a full channel drops it, and a closed one ends the task.
  unfoldable pub on_item : T → Stream → Stream
  on_item v s =
      let (answer, channel) = try_send mpsc s.channel v in
      let tried = record s {
        channel = channel;
        accepted_items = s.accepted_items ++ if_accepted answer v;
      } in
      elim answer [
        | accepted ↦ tried
        | full ↦ tried
        | closed ↦ record tried { phase = Phase.returned }
      ]

  unfoldable pub on_end : Stream → Stream
  on_end s = record s { phase = Phase.sleeping }

  -- After the sleep the next backoff is set, and the loop begins again.
  unfoldable pub on_wake : ReconnectConfig → Stream → Stream
  on_wake cfg s = record s {
    phase = Phase.subscribing;
    backoff = next_backoff s.backoff cfg.max_delay;
  }

  -- What the two kinds of streams do beside their items.
  pub data Lifecycle (cfg : ReconnectConfig) (s : Stream) : Stream → Type 0 where
    subscribed : s.phase ≡ Phase.subscribing → Lifecycle cfg s (on_subscribed cfg s)
    refused : s.phase ≡ Phase.subscribing → Lifecycle cfg s (on_refused s)
    ended : s.phase ≡ Phase.listening → Lifecycle cfg s (on_end s)
    woke : s.phase ≡ Phase.sleeping → Lifecycle cfg s (on_wake cfg s)

  -- A stream of pending transactions.
  pub data PendingStep (cfg : ReconnectConfig) (s : Stream) : Stream → Type 0 where
    hash : (v : T) → s.phase ≡ Phase.listening → PendingStep cfg s (on_item v s)
    lifecycle : {s' : Stream} → Lifecycle cfg s s' → PendingStep cfg s s'

  -- The polling task, with the hashes that it has still to send of the last answer.
  pub data PollPhase : Type 0 where
    ticking returned : PollPhase
    sending : T → List T → PollPhase

  pub record Poll : Type 0 where
    pub phase : PollPhase
    pub channel : Tracked mpsc
    pub accepted_items : List T

  unfoldable pub spawn_poll : ℕ → Option ℕ → Option ℕ → Poll
  spawn_poll channel_size queue_depth dropped = record {
    phase = PollPhase.ticking;
    channel = tracked_channel mpsc channel_size queue_depth dropped;
    accepted_items = [];
  }

  abbrev pub to_send : List T → PollPhase
  to_send [] = PollPhase.ticking
  to_send (v ∷ vs) = PollPhase.sending v vs

  -- The answer of the node to `txpool_content` after a tick, pending and queued; none for a failed
  -- call, which is skipped.
  unfoldable pub on_content : Option (List (List T) × List (List T)) → Poll → Poll
  on_content none s = s
  on_content (some (pending, queued)) s = record s {
    phase = to_send (hashes mpsc (pending ++ queued));
  }

  unfoldable pub on_hash : T → List T → Poll → Poll
  on_hash v vs s =
      let (answer, channel) = try_send mpsc s.channel v in
      let tried = record s {
        phase = to_send vs;
        channel = channel;
        accepted_items = s.accepted_items ++ if_accepted answer v;
      } in
      elim answer [
        | accepted ↦ tried
        | full ↦ tried
        | closed ↦ record tried { phase = PollPhase.returned }
      ]

  pub data PollStep (s : Poll) : Poll → Type 0 where
    content :
        (answer : Option (List (List T) × List (List T)))
        → s.phase ≡ PollPhase.ticking
        → PollStep s (on_content answer s)
    hash : (v : T) (vs : List T) → s.phase ≡ PollPhase.sending v vs → PollStep s (on_hash v vs s)

-- The stream of heads sends the numbers of the headers.
module _ (mpsc : Mpsc ℕ) where
  unfoldable pub on_header : Header → Stream mpsc → Stream mpsc
  unfolding on_item
  on_header header s = on_item mpsc header.number s

  pub data HeadStep (cfg : ReconnectConfig) (s : Stream mpsc) : Stream mpsc → Type 0 where
    header : (h : Header) → s.phase ≡ Phase.listening → HeadStep cfg s (on_header h s)
    lifecycle : {s' : Stream mpsc} → Lifecycle mpsc cfg s s' → HeadStep cfg s s'
