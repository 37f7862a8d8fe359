-- ===== src/Chain/Channel/Racing.antt =====
-- The count when a call of the sender and one of the receiver overlap: each is a step on the queue
-- and then a step on the count, and other steps come between.
use sonic_edge.Base.{
  ℕ, suc, ◌+◌, ◌^◌, ◌≤◌, ◌<◌, ◌≡◌, ◌∙◌, sym, ap, refl, Bool, true, false, none, some, List, [], ◌∷◌,
  ◌++◌, length, length-snoc, lt→ltb, arith,
}
use sonic_edge.Chain.Channel.{
  accepted, Mpsc, Tracked, first, others, tracked_channel, count_sent, count_received,
}

module _ {T : Type 0} (mpsc : Mpsc T) where
  -- The channel, and whether the sender or the receiver is between its two steps.
  pub record Racing : Type 0 where
    pub tracked : Tracked mpsc
    pub sending : Bool
    pub receiving : Bool

  abbrev pub idle : Tracked mpsc → Racing
  idle t = record { tracked = t; sending = false; receiving = false }

  abbrev with_chan : Tracked mpsc → mpsc.Channel → Tracked mpsc
  with_chan t c = record t { chan = c }

  -- `steps` steps lead from a new channel to the state.
  pub data Reaches (capacity : ℕ) : ℕ → Racing → Type 0 where
    start : Reaches capacity 0 (idle (tracked_channel mpsc capacity none none))
    pushed :
        {steps : ℕ} {t : Tracked mpsc} {receiving : Bool} (v : T)
        → Reaches capacity steps (record { tracked = t; sending = false; receiving = receiving })
        → (mpsc.try_send t.chan v).0 ≡ accepted
        → Reaches capacity (suc steps) (record {
          tracked = with_chan t (mpsc.try_send t.chan v).1;
          sending = true;
          receiving = receiving;
        })
    sent :
        {steps : ℕ} {t : Tracked mpsc} {receiving : Bool}
        → Reaches capacity steps (record { tracked = t; sending = true; receiving = receiving })
        → Reaches capacity
            (suc steps)
            (record { tracked = count_sent mpsc t; sending = false; receiving = receiving })
    popped :
        {steps : ℕ} {t : Tracked mpsc} {sending : Bool} (v : T)
        → Reaches capacity steps (record { tracked = t; sending = sending; receiving = false })
        → (mpsc.recv t.chan).0 ≡ some v
        → Reaches capacity (suc steps) (record {
          tracked = with_chan t (mpsc.recv t.chan).1;
          sending = sending;
          receiving = true;
        })
    received :
        {steps : ℕ} {t : Tracked mpsc} {sending : Bool}
        → Reaches capacity steps (record { tracked = t; sending = sending; receiving = true })
        → Reaches capacity
            (suc steps)
            (record { tracked = count_received mpsc t; sending = sending; receiving = false })

  abbrev one_if : Bool → ℕ
  one_if false = 0
  one_if true = 1

  one_if-le : (b : Bool) → one_if b ≤ 1
  one_if-le false = omega arith
  one_if-le true = omega arith

  record IsCovered (steps : ℕ) (r : Racing) : Type 0 where
    pub covered :
        length (mpsc.items r.tracked.chan) + one_if r.receiving ≤ r.tracked.len + one_if r.sending
    pub over :
        r.tracked.len + one_if r.sending
        ≤ length (mpsc.items r.tracked.chan) + one_if r.receiving + 1
    pub few : r.tracked.len ≤ steps

  length-others : (xs : List T) (v : T) → first xs ≡ some v → length (others xs) + 1 ≡ length xs
  length-others [] v h = absurd (ground arith)
  length-others (x ∷ xs) v h = omega arith

  Reaches-IsCovered :
      {capacity steps : ℕ} {r : Racing}
      → steps < 2 ^ 64
      → Reaches capacity steps r
      → IsCovered steps r
  unfolding tracked_channel count_sent count_received
  Reaches-IsCovered {capacity} small start = record {
    covered = rw (mpsc.items-channel capacity) (omega arith);
    over = rw (mpsc.items-channel capacity) (omega arith);
    few = omega arith;
  }
  Reaches-IsCovered small (pushed {t} v r e) =
      let h = Reaches-IsCovered (omega arith) r in
      record {
        covered =
            rw (mpsc.items-accepted t.chan v e)
              (rw (length-snoc (mpsc.items t.chan) v) (omega (arith, h.covered)));
        over =
            rw (mpsc.items-accepted t.chan v e)
              (rw (length-snoc (mpsc.items t.chan) v) (omega (arith, h.over)));
        few = omega (arith, h.few);
      }
  Reaches-IsCovered small (sent {t} r) =
      let h = Reaches-IsCovered (omega arith) r in
      record {
        covered = omega (arith, h.covered, h.few);
        over = omega (arith, h.over, h.few);
        few = omega (arith, h.few);
      }
  Reaches-IsCovered small (popped {t} v r e) =
      let h = Reaches-IsCovered (omega arith) r in
      record {
        covered = rw (mpsc.items-recv t.chan) (
            omega (
              arith,
              h.covered,
              length-others (mpsc.items t.chan) v (sym (mpsc.recv_lem t.chan) ∙ e),
            ));
        over = rw (mpsc.items-recv t.chan) (
            omega (
              arith,
              h.over,
              length-others (mpsc.items t.chan) v (sym (mpsc.recv_lem t.chan) ∙ e),
            ));
        few = omega (arith, h.few);
      }
  Reaches-IsCovered small (received {t} {sending = between} r) =
      let h = Reaches-IsCovered (omega arith) r in
      record {
        covered = omega (arith, h.covered);
        over = omega (arith, h.covered, h.over, one_if-le between);
        few = omega (arith, h.few);
      }

  -- However the two calls overlap, within the first 2^64 steps: when both are done the count is the
  -- number of items or one more.
  pub settled_within_one :
      (capacity steps : ℕ) (t : Tracked mpsc)
      → steps < 2 ^ 64
      → Reaches capacity steps (idle t)
      → (length (mpsc.items t.chan) ≤ t.len) × (t.len ≤ length (mpsc.items t.chan) + 1)
  settled_within_one capacity steps t small r =
      let h = Reaches-IsCovered small r in (omega (arith, h.covered), omega (arith, h.over))

  -- The count of a new channel of positive capacity can be one too high for an empty queue: the
  -- receiver takes the first item and leaves the count at zero before the sender counts the item.
  pub overtaken :
      (capacity : ℕ) (v : T)
      → 0 < capacity
      → (t : Tracked mpsc) × Reaches capacity 4 (idle t) × (mpsc.items t.chan ≡ []) × (t.len ≡ 1)
  unfolding tracked_channel count_sent count_received
  overtaken capacity v h =
      let c = mpsc.channel capacity in
      let fits : (mpsc.try_send c v).0 ≡ accepted =
        mpsc.try_send_lem c v
        ∙ rw (mpsc.open-channel capacity, mpsc.items-channel capacity, mpsc.cap-channel capacity)
            (rw (lt→ltb 0 capacity h) refl) in
      let queued : mpsc.items (mpsc.try_send c v).1 ≡ v ∷ [] =
        mpsc.items-accepted c v fits
        ∙ ap (λ (xs : List T). xs ++ v ∷ []) (mpsc.items-channel capacity) in
      let oldest = mpsc.recv_lem (mpsc.try_send c v).1 ∙ ap first queued in
      (
        _,
        sent (received (popped v (pushed v start fits) oldest)),
        mpsc.items-recv (mpsc.try_send c v).1 ∙ ap others queued,
        refl,
      )
