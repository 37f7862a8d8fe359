-- ===== src/Chain/Streams.antt =====
-- crates/chain/src/pending.rs, heads.rs and txpool.rs: what the streams send into their channels,
-- while the receiver does not come between.
use sonic_edge.Base.{
  ℕ, zero, suc, ◌+◌, ◌<◌, ◌≡◌, ◌∙◌, sym, ap, refl, Bool, true, false, List, [], ◌∷◌, ◌++◌, arith,
  length, length-snoc, take, lt→ltb,
}
use mathlib.Core.List.{append_assoc, append-nil}
use sonic_edge.Chain.Channel.Passing.{chan-try_send, answer-try_send}
use sonic_edge.Chain.Channel.{accepted, full, closed, Mpsc, Tracked, try_send}

module _ {T : Type 0} (mpsc : Mpsc T) where
  -- The loop over the items of a stream: a full channel drops the item, and a closed one ends the
  -- task, which the answer says.
  unfoldable pub send_all : Tracked mpsc → List T → Bool × Tracked mpsc
  send_all t [] = (false, t)
  send_all t (v ∷ vs) =
      let (answer, t') = try_send mpsc t v in
      let rest = send_all t' vs in
      elim answer [ accepted ↦ rest | full ↦ rest | closed ↦ (true, t') ]

  -- The hashes of a `txpool_content` answer, of which each part has the transactions of each
  -- address: the pending ones and then the queued ones.
  unfoldable pub hashes : List (List T) → List T
  hashes [] = []
  hashes (txs ∷ rest) = txs ++ hashes rest

  unfoldable pub backfill : Tracked mpsc → List (List T) → List (List T) → Bool × Tracked mpsc
  unfolding send_all hashes
  backfill t pending queued = send_all t (hashes (pending ++ queued))

  hashes-append : (xs ys : List (List T)) → hashes (xs ++ ys) ≡ hashes xs ++ hashes ys
  unfolding hashes
  hashes-append [] ys = refl
  hashes-append (x ∷ xs) ys =
      ap (λ zs. x ++ zs) (hashes-append xs ys) ∙ sym (append_assoc x (hashes xs) (hashes ys))

  accepted_lem :
      (t : Tracked mpsc) (v : T)
      → mpsc.is_open t.chan ≡ true
      → length (mpsc.items t.chan) < mpsc.cap t.chan
      → (mpsc.try_send t.chan v).0 ≡ accepted
  accepted_lem t v is_open room =
      mpsc.try_send_lem t.chan v ∙ rw is_open (rw (lt→ltb _ _ room) refl)

  full_lem :
      (t : Tracked mpsc) (v : T)
      → mpsc.is_open t.chan ≡ true
      → length (mpsc.items t.chan) ≡ mpsc.cap t.chan
      → (mpsc.try_send t.chan v).0 ≡ full
  full_lem t v is_open filled = mpsc.try_send_lem t.chan v ∙ rw is_open (rw filled (ground arith))

  take_nil : (n : ℕ) → take {A = T} n [] ≡ []
  take_nil zero = refl
  take_nil (suc n) = refl

  send_all-accepted :
      (t : Tracked mpsc) (v : T) (vs : List T)
      → (mpsc.try_send t.chan v).0 ≡ accepted
      → send_all t (v ∷ vs) ≡ send_all (try_send mpsc t v).1 vs
  unfolding send_all
  send_all-accepted t v vs e =
      let answer = answer-try_send mpsc t v ∙ e in rw (answer, send_all) refl

  send_all-full :
      (t : Tracked mpsc) (v : T) (vs : List T)
      → (mpsc.try_send t.chan v).0 ≡ full
      → send_all t (v ∷ vs) ≡ send_all (try_send mpsc t v).1 vs
  unfolding send_all
  send_all-full t v vs e = let answer = answer-try_send mpsc t v ∙ e in rw (answer, send_all) refl

  -- The first items fill the channel, in order, and the rest is dropped.
  record Fills (room : ℕ) (t : Tracked mpsc) (vs : List T) : Type 0 where
    still_open : (send_all t vs).0 ≡ false
    filled : mpsc.items (send_all t vs).1.chan ≡ mpsc.items t.chan ++ take room vs

  send_all-Fills :
      (room : ℕ) (t : Tracked mpsc) (vs : List T)
      → mpsc.is_open t.chan ≡ true
      → length (mpsc.items t.chan) + room ≡ mpsc.cap t.chan
      → Fills room t vs
  unfolding send_all
  send_all-Fills room t [] is_open fits = record {
    still_open = refl;
    filled =
        sym (ap (λ xs. mpsc.items t.chan ++ xs) (take_nil room) ∙ append-nil (mpsc.items t.chan));
  }
  send_all-Fills zero t (v ∷ vs) is_open fits =
      let refused = full_lem t v is_open (omega arith) in
      let same = chan-try_send mpsc t v ∙ mpsc.try_send-full t.chan v refused in
      let h =
        send_all-Fills zero (try_send mpsc t v).1 vs (ap mpsc.is_open same ∙ is_open)
          (ap (λ c. length (mpsc.items c) + 0) same ∙ fits ∙ sym (ap mpsc.cap same)) in
      record {
        still_open = ap (λ o. o.0) (send_all-full t v vs refused) ∙ h.still_open;
        filled =
            ap (λ o. mpsc.items o.1.chan) (send_all-full t v vs refused)
            ∙ h.filled
            ∙ ap (λ c. mpsc.items c ++ []) same;
      }
  send_all-Fills (suc room) t (v ∷ vs) is_open fits =
      let fine = accepted_lem t v is_open (omega arith) in
      let same = chan-try_send mpsc t v in
      let grown = ap mpsc.items same ∙ mpsc.items-accepted t.chan v fine in
      let h =
        send_all-Fills room (try_send mpsc t v).1 vs
          (ap mpsc.is_open same ∙ mpsc.open-try_send t.chan v ∙ is_open)
          (rw grown (
            rw (length-snoc (mpsc.items t.chan) v)
              (omega (arith, fits, ap mpsc.cap same ∙ mpsc.cap-try_send t.chan v)))) in
      record {
        still_open = ap (λ o. o.0) (send_all-accepted t v vs fine) ∙ h.still_open;
        filled =
            ap (λ o. mpsc.items o.1.chan) (send_all-accepted t v vs fine)
            ∙ h.filled
            ∙ ap (λ xs. xs ++ take room vs) grown
            ∙ append_assoc (mpsc.items t.chan) (v ∷ []) (take room vs);
      }

  -- While the receiver stays and takes nothing, and with `room` places free, an answer of the node
  -- about its pool is sent in its order, the pending transactions first, as far as the channel has
  -- room, and the task goes on.
  pub backfill_lem :
      (room : ℕ) (t : Tracked mpsc) (pending queued : List (List T))
      → mpsc.is_open t.chan ≡ true
      → length (mpsc.items t.chan) + room ≡ mpsc.cap t.chan
      → ((backfill t pending queued).0 ≡ false)
        × (mpsc.items (backfill t pending queued).1.chan
            ≡ mpsc.items t.chan ++ take room (hashes pending ++ hashes queued))
  unfolding backfill
  backfill_lem room t pending queued is_open fits =
      let h = send_all-Fills room t (hashes (pending ++ queued)) is_open fits in
      (
        h.still_open,
        h.filled ∙ ap (λ xs. mpsc.items t.chan ++ take room xs) (hashes-append pending queued),
      )
