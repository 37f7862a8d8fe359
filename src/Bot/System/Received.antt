-- ===== src/Bot/System/Received.antt =====
-- The deliveries of each channel, and a run that is continued by one delivery.
use sonic_edge.Base.{ℕ, ◌≡◌, ◌∙◌, ap, refl, List, [], ◌∷◌, ◌++◌, arith}
use sonic_edge.Exec.{Result, ok, err, panic, Exec, pure, continue, ◌>>=◌, ◌>>◌}
use sonic_edge.Core.Types.{B256}
use sonic_edge.Bot.{World, Bot}
use sonic_edge.Bot.Handle.{Delivery, handle_hash, run}
use sonic_edge.Bot.System.{deliver}

-- What was received through each channel.
abbrev pub from_pending : List Delivery → List B256
from_pending [] = []
from_pending (Delivery.pending hash ∷ ds) = hash ∷ from_pending ds
from_pending (Delivery.txpool hash ∷ ds) = from_pending ds
from_pending (Delivery.head number ∷ ds) = from_pending ds

abbrev pub from_txpool : List Delivery → List B256
from_txpool [] = []
from_txpool (Delivery.pending hash ∷ ds) = from_txpool ds
from_txpool (Delivery.txpool hash ∷ ds) = hash ∷ from_txpool ds
from_txpool (Delivery.head number ∷ ds) = from_txpool ds

abbrev pub from_heads : List Delivery → List ℕ
from_heads [] = []
from_heads (Delivery.pending hash ∷ ds) = from_heads ds
from_heads (Delivery.txpool hash ∷ ds) = from_heads ds
from_heads (Delivery.head number ∷ ds) = number ∷ from_heads ds

pub from_pending-append :
    (xs ys : List Delivery) → from_pending (xs ++ ys) ≡ from_pending xs ++ from_pending ys
from_pending-append [] ys = refl
from_pending-append (Delivery.pending hash ∷ xs) ys = ap (◌∷◌ hash) (from_pending-append xs ys)
from_pending-append (Delivery.txpool hash ∷ xs) ys = from_pending-append xs ys
from_pending-append (Delivery.head number ∷ xs) ys = from_pending-append xs ys

pub from_txpool-append :
    (xs ys : List Delivery) → from_txpool (xs ++ ys) ≡ from_txpool xs ++ from_txpool ys
from_txpool-append [] ys = refl
from_txpool-append (Delivery.pending hash ∷ xs) ys = from_txpool-append xs ys
from_txpool-append (Delivery.txpool hash ∷ xs) ys = ap (◌∷◌ hash) (from_txpool-append xs ys)
from_txpool-append (Delivery.head number ∷ xs) ys = from_txpool-append xs ys

pub from_heads-append :
    (xs ys : List Delivery) → from_heads (xs ++ ys) ≡ from_heads xs ++ from_heads ys
from_heads-append [] ys = refl
from_heads-append (Delivery.pending hash ∷ xs) ys = from_heads-append xs ys
from_heads-append (Delivery.txpool hash ∷ xs) ys = from_heads-append xs ys
from_heads-append (Delivery.head number ∷ xs) ys = ap (◌∷◌ number) (from_heads-append xs ys)

module _ {w : World} where
  continue-nothing : (r : Result (Unit {0})) (b : Bot w) → continue r (λ _. pure tt) b ≡ (r, b)
  unfolding pure
  continue-nothing (ok _) b = refl
  continue-nothing (err e) b = refl
  continue-nothing panic b = refl

  run-single : (d : Delivery) (bot : Bot w) → run (d ∷ []) bot ≡ deliver d bot
  unfolding run deliver ◌>>=◌
  run-single (Delivery.pending hash) bot =
      continue-nothing (handle_hash hash bot).0 (handle_hash hash bot).1
  run-single (Delivery.txpool hash) bot =
      continue-nothing (handle_hash hash bot).0 (handle_hash hash bot).1
  run-single (Delivery.head number) bot = refl

  then_snoc :
      (hash : B256) (more more' : Exec (Bot w) (Unit {0})) (bot b : Bot w)
      (answer : Result (Unit {0}) × Bot w)
      → ((s : Bot w) → more s ≡ (ok tt, b) → more' s ≡ answer)
      → (handle_hash hash >> more) bot ≡ (ok tt, b)
      → (handle_hash hash >> more') bot ≡ answer
  unfolding ◌>>=◌
  then_snoc hash more more' bot b answer h e = cased (handle_hash hash bot).0 e
    where
      cased :
          (r : Result (Unit {0}))
          → continue r (λ _. more) (handle_hash hash bot).1 ≡ (ok tt, b)
          → continue r (λ _. more') (handle_hash hash bot).1 ≡ answer
      cased (ok _) q = h (handle_hash hash bot).1 q
      cased (err x) q = absurd (ground (arith, ap (λ o. o.0) q))
      cased panic q = absurd (ground (arith, ap (λ o. o.0) q))

  -- A run goes on from where a run that returned has left the bot.
  pub run-snoc :
      (ds : List Delivery) (d : Delivery) (bot b : Bot w)
      → run ds bot ≡ (ok tt, b)
      → run (ds ++ d ∷ []) bot ≡ deliver d b
  unfolding run ◌>>=◌
  run-snoc [] d bot b e = ap (run (d ∷ [])) (ap (λ o. o.1) e) ∙ run-single d b
  run-snoc (Delivery.pending hash ∷ ds) d bot b e =
      then_snoc hash _ _ bot b _ (λ s q. run-snoc ds d s b q) e
  run-snoc (Delivery.txpool hash ∷ ds) d bot b e =
      then_snoc hash _ _ bot b _ (λ s q. run-snoc ds d s b q) e
  run-snoc (Delivery.head number ∷ ds) d bot b e = run-snoc ds d bot b e
