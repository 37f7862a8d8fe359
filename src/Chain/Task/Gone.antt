-- ===== src/Chain/Task/Gone.antt =====
-- The tasks after their receiver is gone.
use sonic_edge.Base.{ℕ, ◌≡◌, refl, false, none, some, List}
use sonic_edge.Chain.Channel.{Mpsc, Tracked}
use sonic_edge.Chain.Channel.Passing.{dropped-closed, try_send-dropped}
use sonic_edge.Chain.Reconnect.{ReconnectConfig}
use sonic_edge.Chain.Task.{
  Phase, Stream, on_subscribed, on_refused, on_item, on_end, on_wake, Lifecycle, PendingStep,
  HeadStep, on_header, PollPhase, Poll, on_content, on_hash, PollStep,
}

module _ {T : Type 0} (mpsc : Mpsc T) where
  -- Once the receiver is gone, the next item of a stream and the next hash of the poll end the task.
  pub on_item-dropped :
      (v : T) (s : Stream mpsc)
      → mpsc.is_open s.channel.chan ≡ false
      → (on_item mpsc v s).phase ≡ Phase.returned
  unfolding on_item
  on_item-dropped v s gone = rw (dropped-closed mpsc s.channel v gone, on_item) refl

  pub on_hash-dropped :
      (v : T) (vs : List T) (s : Poll mpsc)
      → mpsc.is_open s.channel.chan ≡ false
      → (on_hash mpsc v vs s).phase ≡ PollPhase.returned
  unfolding on_hash
  on_hash-dropped v vs s gone = rw (dropped-closed mpsc s.channel v gone, on_hash) refl

  -- A receiver that is gone stays gone.
  abbrev pub Gone : Tracked mpsc → Type 0
  Gone t = mpsc.is_open t.chan ≡ false

  on_item-Gone : (v : T) (s : Stream mpsc) → Gone s.channel → Gone (on_item mpsc v s).channel
  unfolding on_item
  on_item-Gone v s gone =
      rw (dropped-closed mpsc s.channel v gone, on_item) (try_send-dropped mpsc s.channel v gone)

  lifecycle-Gone :
      (cfg : ReconnectConfig) (s s' : Stream mpsc)
      → Lifecycle mpsc cfg s s'
      → Gone s.channel
      → Gone s'.channel
  unfolding on_subscribed on_refused on_end on_wake
  lifecycle-Gone cfg s _ (Lifecycle.subscribed p) gone = gone
  lifecycle-Gone cfg s _ (Lifecycle.refused p) gone = gone
  lifecycle-Gone cfg s _ (Lifecycle.ended p) gone = gone
  lifecycle-Gone cfg s _ (Lifecycle.woke p) gone = gone

  pub pending-Gone :
      (cfg : ReconnectConfig) (s s' : Stream mpsc)
      → PendingStep mpsc cfg s s'
      → Gone s.channel
      → Gone s'.channel
  pending-Gone cfg s _ (PendingStep.hash v p) gone = on_item-Gone v s gone
  pending-Gone cfg s s' (PendingStep.lifecycle step) gone = lifecycle-Gone cfg s s' step gone

  pub poll-Gone : (s s' : Poll mpsc) → PollStep mpsc s s' → Gone s.channel → Gone s'.channel
  unfolding on_content on_hash
  poll-Gone s _ (PollStep.content none p) gone = gone
  poll-Gone s _ (PollStep.content (some answer) p) gone = gone
  poll-Gone s _ (PollStep.hash v vs p) gone =
      rw (dropped-closed mpsc s.channel v gone, on_hash) (try_send-dropped mpsc s.channel v gone)

pub head-Gone :
    (mpsc : Mpsc ℕ) (cfg : ReconnectConfig) (s s' : Stream mpsc)
    → HeadStep mpsc cfg s s'
    → Gone mpsc s.channel
    → Gone mpsc s'.channel
unfolding on_header
head-Gone mpsc cfg s _ (HeadStep.header h p) gone = on_item-Gone mpsc h.number s gone
head-Gone mpsc cfg s s' (HeadStep.lifecycle step) gone = lifecycle-Gone mpsc cfg s s' step gone
