-- ===== src/Bot/System/Sound.antt =====
-- What holds of the bot and its tasks while the loop runs and after it, and that the tasks keep it.
use sonic_edge.Base.{
  ℕ, ◌≡◌, ◌≢◌, ◌∙◌, sym, ap, subst, refl, Option, none, some, List, [], ◌∷◌, ◌++◌, arith,
}
use sonic_edge.Exec.{Result, ok, err, panic}
use sonic_edge.Core.Types.{B256}
use sonic_edge.Chain.Channel.{Mpsc, dropped_receiver}
use sonic_edge.Chain.Reconnect.{ReconnectConfig}
use sonic_edge.Chain.Task.{Stream, Poll, PendingStep, HeadStep, PollStep}
use sonic_edge.Chain.Task.Alive.{IsAlive, IsPolling, pending-IsAlive, head-IsAlive, poll-IsPolling}
use sonic_edge.Chain.Task.Gone.{Gone, pending-Gone, head-Gone, poll-Gone}
use sonic_edge.Bot.{World, Bot}
use sonic_edge.Bot.Handle.{Delivery, run}
use sonic_edge.Bot.System.{Status, running, stopped, System, deliver, stop, go_on, handled}
use sonic_edge.Bot.System.Received.{from_pending, from_txpool, from_heads, run-snoc}

module _ {w : World} (hashes : Mpsc B256) (numbers : Mpsc ℕ) (first : Bot w) where
  abbrev with_delivery : Delivery → System w hashes numbers → System w hashes numbers
  with_delivery d s = record s { bot = (deliver d s.bot).1; received = s.received ++ d ∷ [] }

  abbrev pub Polls : List B256 → Option (Poll hashes) → Type 0
  Polls taken none = taken ≡ []
  Polls taken (some poll) = IsPolling hashes taken poll

  abbrev pub PollGone : Option (Poll hashes) → Type 0
  PollGone none = Unit
  PollGone (some poll) = Gone hashes poll.channel

  -- The tasks run, and their channels pass on in order what was taken out of them.
  pub record HasTasks (taken : List Delivery) (s : System w hashes numbers) : Type 0 where
    pub pending : IsAlive hashes (from_pending taken) s.pending
    pub heads : IsAlive numbers (from_heads taken) s.heads
    pub txpool : Polls (from_txpool taken) s.txpool

  pub record IsRunning (s : System w hashes numbers) : Type 0 where
    pub tasks : HasTasks s.received s
    pub ran : run s.received first ≡ (ok tt, s.bot)

  pub record IsStopped (r : Result (Unit {0})) (s : System w hashes numbers) : Type 0 where
    pub pending : Gone hashes s.pending.channel
    pub heads : Gone numbers s.heads.channel
    pub txpool : PollGone s.txpool
    pub ran : run s.received first ≡ (r, s.bot)
    pub failed : r ≢ ok tt

  -- What holds of a state depends on whether the loop still runs.
  abbrev pub Sound : Status → System w hashes numbers → Type 0
  Sound running s = IsRunning s
  Sound (stopped r) s = IsStopped r s

  abbrev pub IsSound : System w hashes numbers → Type 0
  IsSound s = Sound s.status s

  pub Sound-running : (s : System w hashes numbers) → s.status ≡ running → IsSound s → IsRunning s
  Sound-running s e h = subst (λ status. Sound status s) e h

  dropped-PollGone :
      (o : Option (Poll hashes))
      → PollGone (elim o as (λ _. Option (Poll hashes)) [
        | none ↦ none
        | some poll ↦ some (record poll { channel = dropped_receiver hashes poll.channel })
      ])
  dropped-PollGone none = tt
  dropped-PollGone (some poll) = hashes.open-drop_receiver poll.channel.chan

  stop-IsStopped :
      (r : Result (Unit {0})) (s : System w hashes numbers)
      → run s.received first ≡ (r, s.bot)
      → r ≢ ok tt
      → IsStopped r (stop w hashes numbers r s)
  unfolding stop
  stop-IsStopped r s ran failed = record {
    pending = hashes.open-drop_receiver s.pending.channel.chan;
    heads = numbers.open-drop_receiver s.heads.channel.chan;
    txpool = dropped-PollGone s.txpool;
    ran = ran;
    failed = failed;
  }

  -- Handling what was received goes on, or stops with the error.
  pub handled-IsSound :
      (d : Delivery) (s : System w hashes numbers)
      → s.status ≡ running
      → HasTasks (s.received ++ d ∷ []) s
      → run s.received first ≡ (ok tt, s.bot)
      → IsSound (handled w hashes numbers d s)
  unfolding handled
  handled-IsSound d s e tasks ran = cased (deliver d s.bot).0 refl
    where
      reran :
          (r : Result (Unit {0}))
          → (deliver d s.bot).0 ≡ r
          → run (s.received ++ d ∷ []) first ≡ (r, (deliver d s.bot).1)
      reran r q = run-snoc s.received d first s.bot ran ∙ ap (λ x. (x, (deliver d s.bot).1)) q

      cased :
          (r : Result (Unit {0}))
          → (deliver d s.bot).0 ≡ r
          → IsSound (go_on w hashes numbers r (with_delivery d s))
      cased (ok _) q =
          subst (λ status. Sound status (with_delivery d s)) (sym e)
            (record {
              tasks = record {
                pending = tasks.pending;
                heads = tasks.heads;
                txpool = tasks.txpool;
              };
              ran = reran (ok tt) q;
            })
      cased (err x) q =
          stop-IsStopped (err x) (with_delivery d s) (reran (err x) q) (λ p. ground arith)
      cased panic q = stop-IsStopped panic (with_delivery d s) (reran panic q) (λ p. ground arith)

  -- A step of a task keeps what holds, whether the loop runs or not.
  pub pending_task-Sound :
      (cfg : ReconnectConfig) (status : Status) (s : System w hashes numbers) (p : Stream hashes)
      → PendingStep hashes cfg s.pending p
      → Sound status s
      → Sound status (record s { pending = p })
  pending_task-Sound cfg running s p step h = record {
    tasks = record {
      pending = pending-IsAlive hashes cfg s.pending p step h.tasks.pending;
      heads = h.tasks.heads;
      txpool = h.tasks.txpool;
    };
    ran = h.ran;
  }
  pending_task-Sound cfg (stopped r) s p step h = record {
    pending = pending-Gone hashes cfg s.pending p step h.pending;
    heads = h.heads;
    txpool = h.txpool;
    ran = h.ran;
    failed = h.failed;
  }

  pub heads_task-Sound :
      (cfg : ReconnectConfig) (status : Status) (s : System w hashes numbers) (p : Stream numbers)
      → HeadStep numbers cfg s.heads p
      → Sound status s
      → Sound status (record s { heads = p })
  heads_task-Sound cfg running s p step h = record {
    tasks = record {
      pending = h.tasks.pending;
      heads = head-IsAlive numbers cfg s.heads p step h.tasks.heads;
      txpool = h.tasks.txpool;
    };
    ran = h.ran;
  }
  heads_task-Sound cfg (stopped r) s p step h = record {
    pending = h.pending;
    heads = head-Gone numbers cfg s.heads p step h.heads;
    txpool = h.txpool;
    ran = h.ran;
    failed = h.failed;
  }

  pub txpool_task-Sound :
      (status : Status) (s : System w hashes numbers) (p p' : Poll hashes)
      → s.txpool ≡ some p
      → PollStep hashes p p'
      → Sound status s
      → Sound status (record s { txpool = some p' })
  txpool_task-Sound running s p p' there step h = record {
    tasks = record {
      pending = h.tasks.pending;
      heads = h.tasks.heads;
      txpool =
          poll-IsPolling hashes p p' step
            (subst (λ o. Polls (from_txpool s.received) o) there h.tasks.txpool);
    };
    ran = h.ran;
  }
  txpool_task-Sound (stopped r) s p p' there step h = record {
    pending = h.pending;
    heads = h.heads;
    txpool = poll-Gone hashes p p' step (subst (λ o. PollGone o) there h.txpool);
    ran = h.ran;
    failed = h.failed;
  }
