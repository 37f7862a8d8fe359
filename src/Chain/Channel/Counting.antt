-- ===== src/Chain/Channel/Counting.antt =====
-- The count when calls do not overlap.
use sonic_edge.Base.{
  ℕ, ◌^◌, ◌≤◌, ◌<◌, ◌≡◌, ◌∙◌, ap, refl, Option, none, some, List, [], ◌∷◌, length, length-snoc,
  arith,
}
use mathlib.Core.List.{foldl}
use sonic_edge.Chain.Channel.{
  SendAnswer, accepted, full, closed, Mpsc, Tracked, first, others, tracked_channel, count_sent,
  count_received, try_send, recv,
}

module _ {T : Type 0} (mpsc : Mpsc T) where
  -- The count is the number of items, which the capacity bounds.
  pub record IsCounted (t : Tracked mpsc) : Type 0 where
    pub counted : t.len ≡ length (mpsc.items t.chan)
    pub bounded : length (mpsc.items t.chan) ≤ mpsc.cap t.chan
    pub word : mpsc.cap t.chan < 2 ^ 64

  -- A call of a sender or of the receiver, and what it answers.
  pub data Call : Type 0 where
    send : T → Call
    receive : Call

  unfoldable pub after : Tracked mpsc → Call → Tracked mpsc
  after t (send v) = (try_send mpsc t v).1
  after t receive = (recv mpsc t).1

  room :
      (c : mpsc.Channel) (v : T)
      → (mpsc.try_send c v).0 ≡ accepted
      → length (mpsc.items c) < mpsc.cap c
  room c v e = ground (arith, mpsc.try_send_lem c v)

  tracked_channel-IsCounted :
      (capacity : ℕ) (depth dropped : Option ℕ)
      → capacity < 2 ^ 64
      → IsCounted (tracked_channel mpsc capacity depth dropped)
  unfolding tracked_channel
  tracked_channel-IsCounted capacity depth dropped h = record {
    counted = rw (mpsc.items-channel capacity) refl;
    bounded = rw (mpsc.items-channel capacity) (omega arith);
    word = rw (mpsc.cap-channel capacity) h;
  }

  sent-IsCounted :
      (t : Tracked mpsc) (v : T) (answer : SendAnswer)
      → (mpsc.try_send t.chan v).0 ≡ answer
      → IsCounted t
      → IsCounted (try_send mpsc t v).1
  unfolding try_send count_sent
  sent-IsCounted t v accepted e h =
      rw (e, try_send)
        (record {
          counted = rw (mpsc.items-accepted t.chan v e) (
              rw (length-snoc (mpsc.items t.chan) v)
                (omega (arith, h.counted, h.word, room t.chan v e)));
          bounded =
              rw (mpsc.items-accepted t.chan v e, mpsc.cap-try_send t.chan v)
                (rw (length-snoc (mpsc.items t.chan) v) (omega (arith, room t.chan v e)));
          word = rw (mpsc.cap-try_send t.chan v) h.word;
        })
  sent-IsCounted t v full e h =
      rw (e, try_send)
        (rw (mpsc.try_send-full t.chan v e)
          (record { counted = h.counted; bounded = h.bounded; word = h.word }))
  sent-IsCounted t v closed e h =
      rw (e, try_send)
        (rw (mpsc.try_send-closed t.chan v e)
          (record { counted = h.counted; bounded = h.bounded; word = h.word }))

  received-IsCounted :
      (t : Tracked mpsc) (items : List T)
      → mpsc.items t.chan ≡ items
      → IsCounted t
      → IsCounted (recv mpsc t).1
  unfolding recv count_received
  received-IsCounted t [] e h =
      let none_left : (mpsc.recv t.chan).0 ≡ none = mpsc.recv_lem t.chan ∙ ap first e in
      let left = mpsc.items-recv t.chan ∙ ap others e in
      rw (none_left, recv)
        (record {
          counted = rw left (h.counted ∙ ap length e);
          bounded = rw left (omega arith);
          word = rw (mpsc.cap-recv t.chan) h.word;
        })
  received-IsCounted t (x ∷ xs) e h =
      let oldest : (mpsc.recv t.chan).0 ≡ some x = mpsc.recv_lem t.chan ∙ ap first e in
      let left = mpsc.items-recv t.chan ∙ ap others e in
      rw (oldest, recv)
        (record {
          counted = rw left (rw (h.counted, e) (omega arith));
          bounded = rw (left, mpsc.cap-recv t.chan) (omega (arith, h.bounded, ap length e));
          word = rw (mpsc.cap-recv t.chan) h.word;
        })

  after-IsCounted : (t : Tracked mpsc) (call : Call) → IsCounted t → IsCounted (after t call)
  unfolding after
  after-IsCounted t (send v) h = sent-IsCounted t v _ refl h
  after-IsCounted t receive h = received-IsCounted t _ refl h

  foldl-IsCounted :
      (t : Tracked mpsc) (calls : List Call) → IsCounted t → IsCounted (foldl after t calls)
  foldl-IsCounted t [] h = h
  foldl-IsCounted t (call ∷ calls) h =
      foldl-IsCounted (after t call) calls (after-IsCounted t call h)

  -- After any calls that do not overlap, from a new channel whose capacity fits a word, the count
  -- is the number of items in the channel, and no more than the capacity.
  pub calls-IsCounted :
      (capacity : ℕ) (depth dropped : Option ℕ) (calls : List Call)
      → capacity < 2 ^ 64
      → IsCounted (foldl after (tracked_channel mpsc capacity depth dropped) calls)
  calls-IsCounted capacity depth dropped calls h =
      foldl-IsCounted _ calls (tracked_channel-IsCounted capacity depth dropped h)
