-- ===== src/Chain/Channel/Passing.antt =====
-- What one call does to the items of a channel: they leave in the order in which they were accepted.
use sonic_edge.Base.{
  ◌≤◌, ◌<◌, ◌≡◌, ◌∙◌, sym, ap, refl, inl, inr, true, false, some, List, [], ◌∷◌, ◌++◌, arith,
  length, length-snoc, Option-cases,
}
use mathlib.Core.List.{append_assoc, append-nil}
use mathlib.Core.Path.{ap₂}
use sonic_edge.Chain.Channel.{
  SendAnswer, accepted, full, closed, Mpsc, Tracked, first, others, count_sent, count_received,
  try_send, recv,
}

-- The items that a call hands over: the one of an accepted sending.
abbrev pub if_accepted : {T : Type 0} → SendAnswer → T → List T
if_accepted accepted v = v ∷ []
if_accepted full v = []
if_accepted closed v = []

module _ {T : Type 0} (mpsc : Mpsc T) where
  -- Whatever it answers, a call leaves the channel as its step on the queue left it.
  pub chan-try_send :
      (t : Tracked mpsc) (v : T) → (try_send mpsc t v).1.chan ≡ (mpsc.try_send t.chan v).1
  unfolding try_send count_sent
  chan-try_send t v = cased (mpsc.try_send t.chan v).0 refl
    where
      cased :
          (answer : SendAnswer)
          → (mpsc.try_send t.chan v).0 ≡ answer
          → (try_send mpsc t v).1.chan ≡ (mpsc.try_send t.chan v).1
      cased accepted e = rw (e, try_send) refl
      cased full e = rw (e, try_send) refl
      cased closed e = rw (e, try_send) refl

  pub answer-try_send :
      (t : Tracked mpsc) (v : T) → (try_send mpsc t v).0 ≡ (mpsc.try_send t.chan v).0
  unfolding try_send count_sent
  answer-try_send t v = cased (mpsc.try_send t.chan v).0 refl
    where
      cased :
          (answer : SendAnswer)
          → (mpsc.try_send t.chan v).0 ≡ answer
          → (try_send mpsc t v).0 ≡ (mpsc.try_send t.chan v).0
      cased accepted e = rw (e, try_send) refl
      cased full e = rw (e, try_send) refl
      cased closed e = rw (e, try_send) refl

  chan-recv : (t : Tracked mpsc) → (recv mpsc t).1.chan ≡ (mpsc.recv t.chan).1
  unfolding recv count_received
  chan-recv t = elim (Option-cases (mpsc.recv t.chan).0) [
    | inl empty ↦ rw (empty, recv) refl
    | inr (v, found) ↦ rw (found, recv) refl
  ]

  answer-recv : (t : Tracked mpsc) → (recv mpsc t).0 ≡ first (mpsc.items t.chan)
  unfolding recv
  answer-recv t = elim (Option-cases (mpsc.recv t.chan).0) [
    | inl empty ↦ rw (empty, recv) (sym empty ∙ mpsc.recv_lem t.chan)
    | inr (v, found) ↦ rw (found, recv) (sym found ∙ mpsc.recv_lem t.chan)
  ]

  -- The receiver is there, the items fit, and what was taken and the items are what was accepted.
  pub record IsPassing (sent taken : List T) (t : Tracked mpsc) : Type 0 where
    pub receiving : mpsc.is_open t.chan ≡ true
    pub bounded : length (mpsc.items t.chan) ≤ mpsc.cap t.chan
    pub in_order : taken ++ mpsc.items t.chan ≡ sent

  room :
      (c : mpsc.Channel) (v : T)
      → (mpsc.try_send c v).0 ≡ accepted
      → length (mpsc.items c) < mpsc.cap c
  room c v e = ground (arith, mpsc.try_send_lem c v)

  not_closed :
      (c : mpsc.Channel) (v : T) → mpsc.is_open c ≡ true → (mpsc.try_send c v).0 ≡ closed → ⊥
  not_closed c v o e = ground (arith, mpsc.try_send_lem c v)

  -- A sending to a channel whose receiver is there.
  pub try_send-IsPassing :
      {sent taken : List T} (t : Tracked mpsc) (v : T)
      → IsPassing sent taken t
      → IsPassing (sent ++ if_accepted (try_send mpsc t v).0 v) taken (try_send mpsc t v).1
  unfolding try_send count_sent
  try_send-IsPassing {sent} {taken} t v h = cased (mpsc.try_send t.chan v).0 refl
    where
      cased :
          (answer : SendAnswer)
          → (mpsc.try_send t.chan v).0 ≡ answer
          → IsPassing (sent ++ if_accepted (try_send mpsc t v).0 v) taken (try_send mpsc t v).1
      cased accepted e =
          rw (e, try_send)
            (record {
              receiving = mpsc.open-try_send t.chan v ∙ h.receiving;
              bounded =
                  rw (mpsc.items-accepted t.chan v e, mpsc.cap-try_send t.chan v)
                    (omega (arith, length-snoc (mpsc.items t.chan) v, room t.chan v e));
              in_order = rw (mpsc.items-accepted t.chan v e) (
                  sym (append_assoc taken (mpsc.items t.chan) (v ∷ []))
                  ∙ ap (λ xs. xs ++ v ∷ []) h.in_order);
            })
      cased full e =
          rw (e, try_send)
            (record {
              receiving = mpsc.open-try_send t.chan v ∙ h.receiving;
              bounded = rw (mpsc.try_send-full t.chan v e) h.bounded;
              in_order = rw (mpsc.try_send-full t.chan v e) (h.in_order ∙ sym (append-nil sent));
            })
      cased closed e = absurd (not_closed t.chan v h.receiving e)

  pub never_closed :
      {sent taken : List T} (t : Tracked mpsc) (v : T)
      → IsPassing sent taken t
      → (try_send mpsc t v).0 ≡ closed
      → ⊥
  never_closed t v h e = not_closed t.chan v h.receiving (sym (answer-try_send t v) ∙ e)

  -- A call that answers with an item.
  pub recv-IsPassing :
      {sent taken : List T} (t : Tracked mpsc) (v : T)
      → (recv mpsc t).0 ≡ some v
      → IsPassing sent taken t
      → IsPassing sent (taken ++ v ∷ []) (recv mpsc t).1
  recv-IsPassing {sent} {taken} t v e h = cased (mpsc.items t.chan) refl
    where
      cased :
          (items : List T)
          → mpsc.items t.chan ≡ items
          → IsPassing sent (taken ++ v ∷ []) (recv mpsc t).1
      cased [] q = absurd (ground (arith, sym e ∙ answer-recv t ∙ ap first q))
      cased (x ∷ xs) q =
          let same : v ≡ x = ground (arith, sym e ∙ answer-recv t ∙ ap first q) in
          let left : mpsc.items (recv mpsc t).1.chan ≡ xs =
            ap mpsc.items (chan-recv t) ∙ mpsc.items-recv t.chan ∙ ap others q in
          record {
            receiving = ap mpsc.is_open (chan-recv t) ∙ mpsc.open-recv t.chan ∙ h.receiving;
            bounded = omega (
              arith,
              ap length left,
              h.bounded,
              ap length q,
              ap mpsc.cap (chan-recv t) ∙ mpsc.cap-recv t.chan,
            );
            in_order =
                ap₂ (λ a b. (taken ++ a ∷ []) ++ b) same left
                ∙ append_assoc taken (x ∷ []) xs
                ∙ ap (λ xs'. taken ++ xs') (sym q)
                ∙ h.in_order;
          }

  -- To the sender, a channel whose receiver is gone is closed.
  pub dropped-closed :
      (t : Tracked mpsc) (v : T) → mpsc.is_open t.chan ≡ false → (try_send mpsc t v).0 ≡ closed
  dropped-closed t v gone = answer-try_send t v ∙ mpsc.try_send_lem t.chan v ∙ rw gone refl

  pub try_send-dropped :
      (t : Tracked mpsc) (v : T)
      → mpsc.is_open t.chan ≡ false
      → mpsc.is_open (try_send mpsc t v).1.chan ≡ false
  try_send-dropped t v gone =
      ap mpsc.is_open (chan-try_send t v) ∙ mpsc.open-try_send t.chan v ∙ gone
