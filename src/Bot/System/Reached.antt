-- ===== src/Bot/System/Reached.antt =====
-- What holds in every state that the bot and its tasks get to.
use sonic_edge.Base.{ℕ, ◌≡◌, ◌∙◌, sym, ap, subst, refl, some, [], ◌∷◌, ◌++◌}
use mathlib.Core.List.{append-nil}
use sonic_edge.Core.Types.{B256}
use sonic_edge.Chain.Channel.{Mpsc, recv}
use sonic_edge.Chain.Reconnect.{ReconnectConfig}
use sonic_edge.Chain.Task.Alive.{IsAlive, recv-IsAlive, recv-IsPolling}
use sonic_edge.Bot.{World, Bot}
use sonic_edge.Bot.Handle.{Delivery}
use sonic_edge.Bot.System.{System, Step, Reach}
use sonic_edge.Bot.System.Received.{
  from_pending, from_txpool, from_heads, from_pending-append, from_txpool-append, from_heads-append,
}
use sonic_edge.Bot.System.Sound.{
  Polls, IsSound, Sound-running, handled-IsSound, pending_task-Sound, heads_task-Sound,
  txpool_task-Sound,
}

module _ {w : World} (hashes : Mpsc B256) (numbers : Mpsc ℕ) (first : Bot w) where
  -- What was received through one channel is not of the others.
  module _ (s : System w hashes numbers) where
    no_pending :
        (d : Delivery)
        → from_pending (d ∷ []) ≡ []
        → IsAlive hashes (from_pending s.received) s.pending
        → IsAlive hashes (from_pending (s.received ++ d ∷ [])) s.pending
    no_pending d other h =
        subst (λ xs. IsAlive hashes xs s.pending)
          (sym (
            from_pending-append s.received (d ∷ [])
            ∙ ap (λ xs. from_pending s.received ++ xs) other
            ∙ append-nil (from_pending s.received)))
          h

    no_heads :
        (d : Delivery)
        → from_heads (d ∷ []) ≡ []
        → IsAlive numbers (from_heads s.received) s.heads
        → IsAlive numbers (from_heads (s.received ++ d ∷ [])) s.heads
    no_heads d other h =
        subst (λ xs. IsAlive numbers xs s.heads)
          (sym (
            from_heads-append s.received (d ∷ [])
            ∙ ap (λ xs. from_heads s.received ++ xs) other
            ∙ append-nil (from_heads s.received)))
          h

    no_txpool :
        (d : Delivery)
        → from_txpool (d ∷ []) ≡ []
        → Polls hashes numbers first (from_txpool s.received) s.txpool
        → Polls hashes numbers first (from_txpool (s.received ++ d ∷ [])) s.txpool
    no_txpool d other h =
        subst (λ xs. Polls hashes numbers first xs s.txpool)
          (sym (
            from_txpool-append s.received (d ∷ [])
            ∙ ap (λ xs. from_txpool s.received ++ xs) other
            ∙ append-nil (from_txpool s.received)))
          h

  pub Step-IsSound :
      (cfg : ReconnectConfig) (s s' : System w hashes numbers)
      → Step w hashes numbers cfg s s'
      → IsSound hashes numbers first s
      → IsSound hashes numbers first s'
  Step-IsSound cfg s _ (Step.pending_task {p} step) h =
      pending_task-Sound hashes numbers first cfg s.status s p step h
  Step-IsSound cfg s _ (Step.heads_task {p} step) h =
      heads_task-Sound hashes numbers first cfg s.status s p step h
  Step-IsSound cfg s _ (Step.txpool_task {p} {p'} there step) h =
      txpool_task-Sound hashes numbers first s.status s p p' there step h
  Step-IsSound cfg s _ (Step.select_pending hash going got) h =
      let r = Sound-running hashes numbers first s going h in
      let d = Delivery.pending hash in
      handled-IsSound hashes numbers first d _ going
        (record {
          pending =
              subst
                (λ xs.
                  IsAlive hashes xs
                    (record (s.pending) { channel = (recv hashes s.pending.channel).1 }))
                (sym (from_pending-append s.received (d ∷ [])))
                (recv-IsAlive hashes hash s.pending got r.tasks.pending);
          heads = no_heads s d refl r.tasks.heads;
          txpool = no_txpool s d refl r.tasks.txpool;
        })
        r.ran
  Step-IsSound cfg s _ (Step.select_txpool hash {p} going there got) h =
      let r = Sound-running hashes numbers first s going h in
      let d = Delivery.txpool hash in
      handled-IsSound hashes numbers first d _ going
        (record {
          pending = no_pending s d refl r.tasks.pending;
          heads = no_heads s d refl r.tasks.heads;
          txpool =
              subst
                (λ xs.
                  Polls hashes numbers first xs
                    (some (record p { channel = (recv hashes p.channel).1 })))
                (sym (from_txpool-append s.received (d ∷ [])))
                (recv-IsPolling hashes hash p got (
                  subst (λ o. Polls hashes numbers first (from_txpool s.received) o) there
                    r.tasks.txpool));
        })
        r.ran
  Step-IsSound cfg s _ (Step.select_head number going got) h =
      let r = Sound-running hashes numbers first s going h in
      let d = Delivery.head number in
      handled-IsSound hashes numbers first d _ going
        (record {
          pending = no_pending s d refl r.tasks.pending;
          heads =
              subst
                (λ xs.
                  IsAlive numbers xs
                    (record (s.heads) { channel = (recv numbers s.heads.channel).1 }))
                (sym (from_heads-append s.received (d ∷ [])))
                (recv-IsAlive numbers number s.heads got r.tasks.heads);
          txpool = no_txpool s d refl r.tasks.txpool;
        })
        r.ran

  pub Reach-IsSound :
      (cfg : ReconnectConfig) (start s : System w hashes numbers)
      → Reach w hashes numbers cfg start s
      → IsSound hashes numbers first start
      → IsSound hashes numbers first s
  Reach-IsSound cfg start _ Reach.launched h = h
  Reach-IsSound cfg start _ (Reach.later {s} {t} before step) h =
      Step-IsSound cfg s t step (Reach-IsSound cfg start s before h)
