-- ===== src/Bot/Questions.antt =====
-- crates/bot/src/orchestrator.rs: how many questions the handling of a hash, and a run, asks.
use sonic_edge.Base.{
  ℕ, suc, ◌+◌, ◌*◌, ◌≤◌, Bool, true, false, Option, none, some, List, [], ◌∷◌, arith, length, max,
}
use sonic_edge.Exec.{Exec, ◌>>◌}
use sonic_edge.Exec.Ensures.{Any, Ensures-Any}
use sonic_edge.Exec.Costs.{
  Costs, Costs-pure, Costs-bind, Costs-weaken, Spends, Spends-pure, Spends-bind,
}
use sonic_edge.Core.Types.{B256, RpcTransaction}
use sonic_edge.Core.Env.{Env}
use sonic_edge.Chain.Fetcher.{fetch, fetched}
use sonic_edge.Dex.Pair.Questions.{Asks, Asks-then, now_ms-Asks}
use sonic_edge.Dex.Resolve.{Session}
use sonic_edge.Dex.Resolve.Questions.{resolve-Spends}
use sonic_edge.Bot.{World, Bot}
use sonic_edge.Bot.Handle.{
  Delivery, query, with_cache, check_hash, count_hit, take_nonce, send, on_checked, handle_hash,
  run,
}
use sonic_edge.Bot.Meter.{Within, Meter, on_checked-Adds}

-- The node, and the clock for the time at which the transaction was first seen.
fetch-Asks : (env : Env) (timeout : ℕ) (hash : B256) → Asks 2 (fetch env timeout hash)
unfolding fetch fetched
fetch-Asks env timeout hash = Asks-then 1 _ _ seen
  where
    seen : (tx : Option RpcTransaction) → Asks 1 (fetched env tx)
    seen none = Spends-pure _ 1 none
    seen (some tx) = Spends-bind _ 1 0 _ _ (now_ms-Asks env) (λ now. Spends-pure _ 0 _)

module _ {w : World} (k : ℕ) where
  abbrev asked : Bot w → ℕ
  asked bot = bot.asked

  abbrev Queries : {A : Type 0} → ℕ → Exec (Bot w) A → Type 0
  Queries n m = Costs (Within k) asked Any n m

  query-Queries : {A : Type 0} (n : ℕ) (m : Exec ℕ A) → Asks n m → Queries n (query m)
  unfolding query
  query-Queries n m cost = record {
    keeps = record { at = λ s h. (h, ((Ensures-Any m).at s.asked tt).1) };
    bound = λ s h. cost.bound s.asked tt;
  }

  with_cache-Queries :
      {A : Type 0} (n : ℕ) (m : Exec (Session w.pair_lru) A)
      → Spends (λ s. s.asked) n m
      → Queries n (with_cache m)
  unfolding with_cache
  with_cache-Queries n m cost = record {
    keeps = record { at = λ s h. (h, ((Ensures-Any m).at _ tt).1) };
    bound = λ s h. cost.bound _ tt;
  }

  questions : Meter k asked 1 2 (1 + 7 * k) 1
  unfolding send take_nonce count_hit
  questions = record {
    clocked = query-Queries 1 _ (now_ms-Asks w.env);
    fetches = λ timeout hash. query-Queries 2 _ (fetch-Asks w.env timeout hash);
    resolves = λ factories a b stable few.
        Costs-weaken (Within k) asked (1 + 7 * length factories) _ _ (omega arith) (
          with_cache-Queries _ _
            (resolve-Spends w.pair_lru w.pair_abi w.hashing w.env factories a b stable));
    sends = λ tx. record {
      keeps = record { at = λ s h. (h, ((Ensures-Any (send tx)).at s tt).1) };
      bound = λ s h. omega arith;
    };
    numbered = record { keeps = record { at = λ s h. (h, tt) }; bound = λ s h. omega arith };
    duplicate = record { keeps = record { at = λ s h. (h, tt) }; bound = λ s h. omega arith };
  }

  module _ (positive : 1 ≤ k) where
    checked-Queries : (hash : B256) (fresh : Bool) → Queries (5 + 7 * k) (on_checked hash fresh)
    checked-Queries hash true =
        Costs-weaken (Within k) asked _ _ _ (omega arith)
          (on_checked-Adds k asked questions positive hash true)
    checked-Queries hash false =
        Costs-weaken (Within k) asked _ _ _ (omega arith)
          (on_checked-Adds k asked questions positive hash false)

    handle_hash-Queries : (hash : B256) → Queries (6 + 7 * k) (handle_hash hash)
    unfolding handle_hash check_hash
    handle_hash-Queries hash =
        Costs-weaken (Within k) asked (1 + (0 + (5 + 7 * k))) _ _ (omega arith) (
          Costs-bind (Within k) asked Any Any 1 _ _ _ (query-Queries 1 _ (now_ms-Asks w.env))
            λ now _.
              Costs-bind (Within k) asked Any Any 0 _ _ _
                (record { keeps = record { at = λ s h. (h, tt) }; bound = λ s h. omega arith })
                λ fresh _. checked-Queries hash fresh)

    then_hash :
        (hash : B256) (n : ℕ) (rest : Exec (Bot w) (Unit {0}))
        → Queries ((6 + 7 * k) * n) rest
        → Queries ((6 + 7 * k) * suc n) (handle_hash hash >> rest)
    then_hash hash n rest cost =
        Costs-weaken (Within k) asked (6 + 7 * k + (6 + 7 * k) * n) _ _ (omega arith) (
          Costs-bind (Within k) asked Any Any (6 + 7 * k) _ _ _ (handle_hash-Queries hash)
            (λ _ _. cost))

    run-Queries :
        (deliveries : List Delivery) → Queries ((6 + 7 * k) * length deliveries) (run deliveries)
    unfolding run
    run-Queries [] = Costs-pure (Within k) asked _ tt tt
    run-Queries (Delivery.pending hash ∷ rest) = then_hash hash _ _ (run-Queries rest)
    run-Queries (Delivery.txpool hash ∷ rest) = then_hash hash _ _ (run-Queries rest)
    run-Queries (Delivery.head number ∷ rest) =
        Costs-weaken (Within k) asked ((6 + 7 * k) * length rest) _ _ (omega arith)
          (run-Queries rest)

module _ {w : World} where
  -- A run ends, whatever the clock and the node answer and however it ends, after at most thirteen
  -- questions for each delivery, and seven more for each configured factory beyond the first.
  pub run-questions :
      (bot : Bot w) (deliveries : List Delivery)
      → (run deliveries bot).1.asked
        ≤ (6 + 7 * max (length bot.factories) 1) * length deliveries + bot.asked
  run-questions bot deliveries =
      (run-Queries {w = w} (max (length bot.factories) 1) (omega arith) deliveries).bound bot
        (omega arith)
