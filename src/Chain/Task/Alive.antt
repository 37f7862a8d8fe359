-- ===== src/Chain/Task/Alive.antt =====
-- The tasks while their receiver is there.
use sonic_edge.Base.{ℕ, ◌≡◌, ◌≢◌, refl, Option, none, some, List, [], ◌∷◌, ◌++◌, arith}
use sonic_edge.Chain.Channel.{
  SendAnswer, accepted, full, closed, Mpsc, tracked_channel, try_send, recv,
}
use sonic_edge.Chain.Channel.Passing.{IsPassing, try_send-IsPassing, recv-IsPassing, never_closed}
use sonic_edge.Chain.Reconnect.{ReconnectConfig}
use sonic_edge.Chain.Streams.{hashes}
use sonic_edge.Chain.Task.{
  Phase, Stream, spawn, spawn_poll, on_subscribed, on_refused, on_item, on_end, on_wake, Lifecycle,
  PendingStep, HeadStep, on_header, PollPhase, Poll, to_send, on_content, on_hash, PollStep,
}

module _ {T : Type 0} (mpsc : Mpsc T) where
  -- The task runs, its channel has room for its items and passes them on in order.
  pub record IsAlive (taken : List T) (s : Stream mpsc) : Type 0 where
    pub running : s.phase ≢ Phase.returned
    pub passing : IsPassing mpsc s.accepted_items taken s.channel

  pub record IsPolling (taken : List T) (s : Poll mpsc) : Type 0 where
    pub running : s.phase ≢ PollPhase.returned
    pub passing : IsPassing mpsc s.accepted_items taken s.channel

  new-IsPassing :
      (capacity : ℕ) (depth dropped : Option ℕ)
      → IsPassing mpsc [] [] (tracked_channel mpsc capacity depth dropped)
  unfolding tracked_channel
  new-IsPassing capacity depth dropped = record {
    receiving = mpsc.open-channel capacity;
    bounded = rw (mpsc.items-channel capacity) (omega arith);
    in_order = mpsc.items-channel capacity;
  }

  pub spawn-IsAlive :
      (cfg : ReconnectConfig) (capacity : ℕ) (depth dropped : Option ℕ)
      → IsAlive [] (spawn mpsc cfg capacity depth dropped)
  unfolding spawn
  spawn-IsAlive cfg capacity depth dropped = record {
    running = λ e. ground arith;
    passing = new-IsPassing capacity depth dropped;
  }

  pub spawn_poll-IsPolling :
      (capacity : ℕ) (depth dropped : Option ℕ)
      → IsPolling [] (spawn_poll mpsc capacity depth dropped)
  unfolding spawn_poll
  spawn_poll-IsPolling capacity depth dropped = record {
    running = λ e. ground arith;
    passing = new-IsPassing capacity depth dropped;
  }

  to_send-ne-returned : (vs : List T) → to_send mpsc vs ≢ PollPhase.returned
  to_send-ne-returned [] e = ground arith
  to_send-ne-returned (v ∷ vs) e = ground arith

  module _ {taken : List T} where
    on_item-IsAlive : (v : T) (s : Stream mpsc) → IsAlive taken s → IsAlive taken (on_item mpsc v s)
    unfolding on_item
    on_item-IsAlive v s h = cased (try_send mpsc s.channel v).0 refl
      where
        cased :
            (answer : SendAnswer)
            → (try_send mpsc s.channel v).0 ≡ answer
            → IsAlive taken (on_item mpsc v s)
        cased accepted e =
            rw (e, on_item)
              (record {
                running = h.running;
                passing = try_send-IsPassing mpsc s.channel v h.passing;
              })
        cased full e =
            rw (e, on_item)
              (record {
                running = h.running;
                passing = try_send-IsPassing mpsc s.channel v h.passing;
              })
        cased closed e = absurd (never_closed mpsc s.channel v h.passing e)

    lifecycle-IsAlive :
        (cfg : ReconnectConfig) (s s' : Stream mpsc)
        → Lifecycle mpsc cfg s s'
        → IsAlive taken s
        → IsAlive taken s'
    unfolding on_subscribed on_refused on_end on_wake
    lifecycle-IsAlive cfg s _ (Lifecycle.subscribed p) h = record {
      running = λ e. ground arith;
      passing = h.passing;
    }
    lifecycle-IsAlive cfg s _ (Lifecycle.refused p) h = record {
      running = λ e. ground arith;
      passing = h.passing;
    }
    lifecycle-IsAlive cfg s _ (Lifecycle.ended p) h = record {
      running = λ e. ground arith;
      passing = h.passing;
    }
    lifecycle-IsAlive cfg s _ (Lifecycle.woke p) h = record {
      running = λ e. ground arith;
      passing = h.passing;
    }

    -- While the receiver is there, no step of a stream ends its task.
    pub pending-IsAlive :
        (cfg : ReconnectConfig) (s s' : Stream mpsc)
        → PendingStep mpsc cfg s s'
        → IsAlive taken s
        → IsAlive taken s'
    pending-IsAlive cfg s _ (PendingStep.hash v p) h = on_item-IsAlive v s h
    pending-IsAlive cfg s s' (PendingStep.lifecycle step) h = lifecycle-IsAlive cfg s s' step h

    on_hash-IsPolling :
        (v : T) (vs : List T) (s : Poll mpsc)
        → IsPolling taken s
        → IsPolling taken (on_hash mpsc v vs s)
    unfolding on_hash
    on_hash-IsPolling v vs s h = cased (try_send mpsc s.channel v).0 refl
      where
        cased :
            (answer : SendAnswer)
            → (try_send mpsc s.channel v).0 ≡ answer
            → IsPolling taken (on_hash mpsc v vs s)
        cased accepted e =
            rw (e, on_hash)
              (record {
                running = to_send-ne-returned vs;
                passing = try_send-IsPassing mpsc s.channel v h.passing;
              })
        cased full e =
            rw (e, on_hash)
              (record {
                running = to_send-ne-returned vs;
                passing = try_send-IsPassing mpsc s.channel v h.passing;
              })
        cased closed e = absurd (never_closed mpsc s.channel v h.passing e)

    pub poll-IsPolling :
        (s s' : Poll mpsc) → PollStep mpsc s s' → IsPolling taken s → IsPolling taken s'
    unfolding on_content
    poll-IsPolling s _ (PollStep.content none p) h = h
    poll-IsPolling s _ (PollStep.content (some (pending, queued)) p) h = record {
      running = to_send-ne-returned (hashes mpsc (pending ++ queued));
      passing = h.passing;
    }
    poll-IsPolling s _ (PollStep.hash v vs p) h = on_hash-IsPolling v vs s h

  -- Taking an item out leaves a task as it is.
  pub recv-IsAlive :
      {taken : List T} (v : T) (s : Stream mpsc)
      → (recv mpsc s.channel).0 ≡ some v
      → IsAlive taken s
      → IsAlive (taken ++ v ∷ []) (record s { channel = (recv mpsc s.channel).1 })
  recv-IsAlive v s got h = record {
    running = h.running;
    passing = recv-IsPassing mpsc s.channel v got h.passing;
  }

  pub recv-IsPolling :
      {taken : List T} (v : T) (s : Poll mpsc)
      → (recv mpsc s.channel).0 ≡ some v
      → IsPolling taken s
      → IsPolling (taken ++ v ∷ []) (record s { channel = (recv mpsc s.channel).1 })
  recv-IsPolling v s got h = record {
    running = h.running;
    passing = recv-IsPassing mpsc s.channel v got h.passing;
  }

-- The same for the stream of heads.
pub head-IsAlive :
    (mpsc : Mpsc ℕ) {taken : List ℕ} (cfg : ReconnectConfig) (s s' : Stream mpsc)
    → HeadStep mpsc cfg s s'
    → IsAlive mpsc taken s
    → IsAlive mpsc taken s'
unfolding on_header
head-IsAlive mpsc cfg s _ (HeadStep.header h p) a = on_item-IsAlive mpsc h.number s a
head-IsAlive mpsc cfg s s' (HeadStep.lifecycle step) a = lifecycle-IsAlive mpsc cfg s s' step a
