-- ===== src/Bot/Once.antt =====
-- crates/bot/src/orchestrator.rs: a run sends no transaction for a duplicate.
use sonic_edge.Base.{
  ℕ, ◌≤◌, ◌≡◌, ◌∙◌, ap, sym, refl, Bool, true, false, List, [], ◌∷◌, ◌++◌, length, All, subst,
}
use mathlib.Core.List.{foldl, append-nil, append_assoc}
use sonic_edge.Base.{ℕ_discrete}
use sonic_edge.Exec.{Result, ok, err, panic, Exec, pure, continue, ◌>>=◌, ◌>>◌}
use sonic_edge.Core.Types.{B256, TransactionRequest}
use sonic_edge.Core.Dedupe.{check_all}
use sonic_edge.Core.Dedupe.History.{note, Tracks}
use sonic_edge.Core.Dedupe.Admitted.{
  admitted, Unique, InWindow, Among, admitted-Among, check_all-Unique,
}
use sonic_edge.Executor.TxBuilder.Built.{IsWord, ExecutorCodec}
use sonic_edge.Bot.{World, Bot}
use sonic_edge.Bot.Handle.{Delivery, handle_hash, run}
use sonic_edge.Bot.Kept.{SameSettings}
use sonic_edge.Bot.Failures.{clock, verdict, checked}
use sonic_edge.Bot.Duplicates.{dedupe-handle_hash, settings-handle_hash}
use sonic_edge.Bot.Bought.{BoughtFor, Outcome, quiet, sending, handle_hash-Outcome}
use sonic_edge.Bot.Checks.{unless_failed, checks}

-- Some of the items, in order.
data Sub {A : Type 0} : List A → List A → Type 0 where
  done : Sub [] []
  keep : {a : A} {xs ys : List A} → Sub xs ys → Sub (a ∷ xs) (a ∷ ys)
  skip : {a : A} {xs ys : List A} → Sub xs ys → Sub xs (a ∷ ys)

Sub-nil : {A : Type 0} (xs : List A) → Sub [] xs
Sub-nil [] = done
Sub-nil (x ∷ xs) = skip (Sub-nil xs)

Sub-All : {A : Type 0} (P : A → Type 0) {xs ys : List A} → Sub xs ys → All P ys → All P xs
Sub-All P done h = tt
Sub-All P (keep s) h = (h.0, Sub-All P s h.1)
Sub-All P (skip s) h = Sub-All P s h.1

Sub-Unique : {xs ys : List B256} → Sub xs ys → Unique ys → Unique xs
Sub-Unique done h = tt
Sub-Unique (keep s) h = (Sub-All _ s h.0, Sub-Unique s h.1)
Sub-Unique (skip s) h = Sub-Unique s h.1

-- As many transactions as hashes, each for its hash.
abbrev pub Matched :
    (B256 → TransactionRequest → Type 0) → List B256 → List TransactionRequest → Type 0
Matched P [] [] = Unit
Matched P (hash ∷ hashes) (tx ∷ txs) = P hash tx × Matched P hashes txs
Matched P [] (tx ∷ txs) = ⊥
Matched P (hash ∷ hashes) [] = ⊥

Sub-admitted :
    (fresh : Bool) (op : B256 × ℕ) (ops : List (B256 × ℕ)) (verdicts : List Bool)
    (hashes : List B256)
    → Sub hashes (admitted ops verdicts)
    → Sub hashes (admitted (op ∷ ops) (fresh ∷ verdicts))
Sub-admitted true op ops verdicts hashes h = skip h
Sub-admitted false op ops verdicts hashes h = h

module _ {w : World} (codec : ExecutorCodec w.executor_abi) (start : Bot w)
    (small : IsWord start.tx_builder) where
  -- What was sent between two states, for some of the hashes.
  record Accounts (before after : List TransactionRequest) (hashes : List B256) : Type 0 where
    pub subjects : List B256
    pub bought : List TransactionRequest
    pub among : Sub subjects hashes
    pub each : Matched (λ hash tx. BoughtFor codec start hash tx) subjects bought
    pub sent : after ≡ before ++ bought

  -- The hashes that a sequence of checks of the bot's cache admits.
  abbrev admitted_by : Bot w → List (B256 × ℕ) → List B256
  admitted_by bot ops = admitted ops (check_all w.dedupe_lru bot.dedupe ops).0

  nothing_sent : (sent : List TransactionRequest) (hashes : List B256) → Accounts sent sent hashes
  nothing_sent sent hashes = record {
    subjects = [];
    bought = [];
    among = Sub-nil hashes;
    each = tt;
    sent = sym (append-nil sent);
  }

  and_before :
      (hash : B256) (now : ℕ) (fresh : Bool) (ops : List (B256 × ℕ)) (verdicts : List Bool)
      (before between after : List TransactionRequest)
      → Outcome codec start hash fresh before between
      → Accounts between after (admitted ops verdicts)
      → Accounts before after (admitted ((hash, now) ∷ ops) (fresh ∷ verdicts))
  and_before hash now fresh ops verdicts before between after (quiet same) h = record {
    subjects = h.subjects;
    bought = h.bought;
    among = Sub-admitted fresh (hash, now) ops verdicts h.subjects h.among;
    each = h.each;
    sent = h.sent ∙ ap (λ (xs : List TransactionRequest). xs ++ h.bought) same;
  }
  and_before hash now fresh ops verdicts before between after (sending tx new buys more) h =
      record {
        subjects = hash ∷ h.subjects;
        bought = tx ∷ h.bought;
        among = rw new (keep h.among);
        each = (buys, h.each);
        sent =
            h.sent
            ∙ ap (λ (xs : List TransactionRequest). xs ++ h.bought) more
            ∙ append_assoc before (tx ∷ []) h.bought;
      }

  then-Accounts :
      (hash : B256) (bot : Bot w) (rest : Exec (Bot w) (Unit {0})) (ops : List (B256 × ℕ))
      → SameSettings start bot
      → Accounts
          (handle_hash hash bot).1.sent
          (rest (handle_hash hash bot).1).1.sent
          (admitted_by (handle_hash hash bot).1 ops)
      → Accounts bot.sent ((handle_hash hash >> rest) bot).1.sent (
          admitted_by bot
            ((hash, clock w.env bot.asked) ∷ unless_failed (handle_hash hash bot).0 ops))
  unfolding ◌>>=◌ check_all
  then-Accounts hash bot rest ops s h =
      and_before hash (clock w.env bot.asked) (verdict bot hash)
        (unless_failed (handle_hash hash bot).0 ops)
        (check_all w.dedupe_lru (checked bot hash).dedupe
          (unless_failed (handle_hash hash bot).0 ops)).0
        bot.sent (handle_hash hash bot).1.sent _ (handle_hash-Outcome codec start bot hash small s)
        (tail (handle_hash hash bot).0)
    where
      tail :
          (r : Result (Unit {0}))
          → Accounts
              (handle_hash hash bot).1.sent
              (continue r (λ _. rest) (handle_hash hash bot).1).1.sent
              (admitted
                (unless_failed r ops)
                (check_all w.dedupe_lru (checked bot hash).dedupe (unless_failed r ops)).0)
      tail (ok _) =
          subst
            (λ d.
              Accounts (handle_hash hash bot).1.sent (rest (handle_hash hash bot).1).1.sent
                (admitted ops (check_all w.dedupe_lru d ops).0))
            (dedupe-handle_hash bot hash) h
      tail (err e) = nothing_sent _ _
      tail panic = nothing_sent _ _

  handled_settings :
      (bot : Bot w) (hash : B256)
      → SameSettings start bot
      → SameSettings start (handle_hash hash bot).1
  handled_settings bot hash s =
      let h = settings-handle_hash bot hash in
      record {
        routers = h.routers ∙ s.routers;
        base_tokens = h.base_tokens ∙ s.base_tokens;
        min_base_amount = h.min_base_amount ∙ s.min_base_amount;
        tx_builder = h.tx_builder ∙ s.tx_builder;
        allowed = h.allowed ∙ s.allowed;
        router_factories = h.router_factories ∙ s.router_factories;
        timeout = h.timeout ∙ s.timeout;
        deadline_secs = h.deadline_secs ∙ s.deadline_secs;
      }

  -- What a run sends is sent for some of the hashes that its checks admit, in order.
  run-Accounts :
      (deliveries : List Delivery) (bot : Bot w)
      → SameSettings start bot
      → Accounts bot.sent (run deliveries bot).1.sent (admitted_by bot (checks deliveries bot))
  unfolding run checks check_all pure
  run-Accounts [] bot s = nothing_sent _ _
  run-Accounts (Delivery.pending hash ∷ rest) bot s =
      then-Accounts hash bot (run rest) _ s
        (run-Accounts rest (handle_hash hash bot).1 (handled_settings bot hash s))
  run-Accounts (Delivery.txpool hash ∷ rest) bot s =
      then-Accounts hash bot (run rest) _ s
        (run-Accounts rest (handle_hash hash bot).1 (handled_settings bot hash s))
  run-Accounts (Delivery.head number ∷ rest) bot s = run-Accounts rest bot s

-- For 64-bit fees, from a bot whose dedupe cache is empty, while the distinct hashes that a run
-- checks fit that cache and all its checks fall into the window of the earliest: all that the run
-- hands to the node is, in order, one transaction for each of some of the checked hashes, no hash
-- twice, however often and through whichever channel it is delivered; and each transaction buys the
-- candidate that is to be detected in the transaction that the node answered for its hash.
pub run-once :
    {w : World} (codec : ExecutorCodec w.executor_abi) (bot : Bot w) (deliveries : List Delivery)
    (from ttl_ms capacity : ℕ)
    → IsWord bot.tx_builder
    → Tracks w.dedupe_lru ttl_ms capacity bot.dedupe []
    → length (foldl (note ℕ_discrete ttl_ms) [] (checks deliveries bot)) ≤ capacity
    → InWindow from ttl_ms (checks deliveries bot)
    → (hashes : List B256) × (bought : List TransactionRequest) × Unique hashes
      × Among hashes (checks deliveries bot)
      × Matched (λ hash tx. BoughtFor codec bot hash tx) hashes bought
      × ((run deliveries bot).1.sent ≡ bot.sent ++ bought)
run-once {w} codec bot deliveries from ttl_ms capacity small t fits within =
    let ops = checks deliveries bot in
    let h = run-Accounts codec bot small deliveries bot (record {
      routers = refl;
      base_tokens = refl;
      min_base_amount = refl;
      tx_builder = refl;
      allowed = refl;
      router_factories = refl;
      timeout = refl;
      deadline_secs = refl;
    }) in
    (
      h.subjects,
      h.bought,
      Sub-Unique h.among
          (check_all-Unique w.dedupe_lru ops bot.dedupe from ttl_ms capacity t fits within),
      Sub-All _ h.among (admitted-Among ops _),
      h.each,
      h.sent,
    )
