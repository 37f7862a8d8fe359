-- ===== src/Bot/Meter.antt =====
-- crates/bot/src/orchestrator.rs: what handling a hash adds to a count, by what its steps add.
use sonic_edge.Base.{
  ℕ, ◌+◌, ◌≤◌, Bool, true, false, Option, none, some, List, [], ◌∷◌, arith, length, not, is_some,
  ◌==◌, ◌&&◌, ◌||◌,
}
use sonic_edge.Exec.{Result, Exec, pure, lift, ◌>>=◌}
use sonic_edge.Exec.Ensures.{Any, Ensures-Any}
use sonic_edge.Exec.Costs.{Costs, Costs-pure, Costs-if, Costs-weaken, Costs-bind}
use sonic_edge.Core.Types.{
  Address, B256, address_zero, MempoolTx, LiquidityCandidate, TransactionRequest,
}
use sonic_edge.Core.Env.{now_ms}
use sonic_edge.Chain.Fetcher.{fetch}
use sonic_edge.Dex.Resolve.{resolve}
use sonic_edge.Risk.{pass, assess}
use sonic_edge.Bot.{World, Bot}
use sonic_edge.Bot.Handle.{
  read, query, with_cache, count_hit, take_nonce, send, factories_for, resolve_among,
  resolve_candidate_pair, buy, execute_candidate, judge, act_on, on_candidate, on_fetched,
  on_checked,
}

-- The bot has at most `k` factories to ask, `k` at least one for that of the router.
abbrev pub Within : {w : World} → ℕ → Bot w → Type 0
Within k bot = length bot.factories ≤ k

-- At most `k` factories, if any are to be asked.
abbrev AtMost : ℕ → Option (List Address) → Type 0
AtMost k none = Unit
AtMost k (some factories) = length factories ≤ k

module _ {w : World} (k : ℕ) (count : Bot w → ℕ) where
  abbrev Adds : {A : Type 0} → ℕ → Exec (Bot w) A → Type 0
  Adds n m = Costs (Within k) count Any n m

  -- What the steps add: a look at the clock, a fetch, a resolution over at most `k` factories and a
  -- sending. A nonce and a duplicate add nothing.
  pub record Meter (clock fetching resolving sending : ℕ) : Type 0 where
    pub clocked : Adds clock (query (now_ms w.env))
    pub fetches : (timeout : ℕ) (hash : B256) → Adds fetching (query (fetch w.env timeout hash))
    pub resolves :
        (factories : List Address) (a b : Address) (stable : Option Bool)
        → length factories ≤ k
        → Adds resolving
            (with_cache (resolve w.pair_lru w.pair_abi w.hashing w.env factories a b stable))
    pub sends : (tx : TransactionRequest) → Adds sending (send tx)
    pub numbered : Adds 0 take_nonce
    pub duplicate : Adds 0 count_hit

  Adds-bind :
      {A B : Type 0} (n j : ℕ) (m : Exec (Bot w) A) (f : A → Exec (Bot w) B)
      → Adds n m
      → ((a : A) → Adds j (f a))
      → Adds (n + j) (m >>= f)
  Adds-bind n j m f km kf = Costs-bind (Within k) count Any Any n j m f km (λ a _. kf a)

  Adds-pure : {A : Type 0} (n : ℕ) (a : A) → Adds n (pure a)
  Adds-pure n a = Costs-pure (Within k) count n a tt

  -- Reading a value, or raising an error, adds nothing to what follows.
  Adds-from :
      {A B : Type 0} (Q : A → Type 0) (n : ℕ) (f : Bot w → A) (g : A → Exec (Bot w) B)
      → ((bot : Bot w) → Within k bot → Q (f bot))
      → ((a : A) → Q a → Adds n (g a))
      → Adds n (read f >>= g)
  unfolding read
  Adds-from Q n f g q kg = Costs-weaken (Within k) count (0 + n) n _ (omega arith) (
      Costs-bind (Within k) count Q Any 0 n _ g
        (record { keeps = record { at = λ s h. (h, q s h) }; bound = λ s h. omega arith }) kg)

  Adds-read :
      {A B : Type 0} (n : ℕ) (f : Bot w → A) (g : A → Exec (Bot w) B)
      → ((a : A) → Adds n (g a))
      → Adds n (read f >>= g)
  Adds-read n f g kg = Adds-from Any n f g (λ bot h. tt) (λ a _. kg a)

  Adds-check :
      {A B : Type 0} (n : ℕ) (r : Result A) (g : A → Exec (Bot w) B)
      → ((a : A) → Adds n (g a))
      → Adds n (lift r >>= g)
  unfolding lift
  Adds-check n r g kg = Costs-weaken (Within k) count (0 + n) n _ (omega arith) (
      Adds-bind 0 n _ g
        (record {
          keeps = record { at = λ s h. (h, ((Ensures-Any (lift r)).at s tt).1) };
          bound = λ s h. omega arith;
        })
        kg)

  module _ {clock fetching resolving sending : ℕ} (meter : Meter clock fetching resolving sending)
      (positive : 1 ≤ k) where
    factories-AtMost :
        (bot : Bot w) (c : LiquidityCandidate) → Within k bot → AtMost k (factories_for bot c)
    unfolding factories_for
    factories-AtMost bot c h = chosen c.factory bot.router_factories
      where
        chosen :
            (known : Option Address) (mapped : List (Address × Address))
            → AtMost k (elim known as (λ _. Option (List Address)) [
              | some factory ↦ some (factory ∷ [])
              | none ↦ elim mapped as (λ _. Option (List Address)) [
                | [] ↦ some bot.factories
                | _ ∷ _ ↦ none
              ]
            ])
        chosen (some factory) mapped = omega arith
        chosen none [] = h
        chosen none (m ∷ ms) = tt

    resolve_among-Adds :
        (c : LiquidityCandidate) (fs : Option (List Address))
        → AtMost k fs
        → Adds resolving (resolve_among c fs)
    unfolding resolve_among
    resolve_among-Adds c none few = Adds-pure resolving c
    resolve_among-Adds c (some fs) few =
        Costs-weaken (Within k) count (resolving + 0) _ _ (omega arith) (
          Adds-bind resolving 0 _ _ (meter.resolves fs c.base c.token c.stable few)
            (λ m. Adds-pure 0 _))

    resolve_candidate_pair-Adds :
        (c : LiquidityCandidate) → Adds resolving (resolve_candidate_pair c)
    unfolding resolve_candidate_pair
    resolve_candidate_pair-Adds c =
        Costs-if (Within k) count resolving (c.base == address_zero || is_some c.pair) (pure c) _
          (λ _. Adds-pure resolving c)
          (λ _.
            Adds-from (AtMost k) resolving _ _ (λ bot h. factories-AtMost bot c h)
              (λ fs few. resolve_among-Adds c fs few))

    buy-Adds : (c : LiquidityCandidate) → Adds (0 + (clock + (sending + 0))) (buy c)
    unfolding buy
    buy-Adds c = Adds-bind 0 _ _ _ meter.numbered λ nonce.
        Adds-bind clock _ _ _ meter.clocked λ now. Adds-read _ _ _ λ built.
          Adds-check _ built _ λ tx. Adds-bind sending 0 _ _ (meter.sends tx) λ hash. Adds-pure 0 tt

    execute_candidate-Adds : (c : LiquidityCandidate) → Adds (clock + sending) (execute_candidate c)
    unfolding execute_candidate
    execute_candidate-Adds c = Adds-read _ _ _ λ owner.
        Costs-if (Within k) count _ (owner == address_zero) _ _ (λ _. Adds-pure _ tt)
          λ _.
            Costs-if (Within k) count _ (c.base == address_zero) _ _ (λ _. Adds-pure _ tt)
              λ _. Costs-weaken (Within k) count _ _ _ (omega arith) (buy-Adds c)

    act_on-Adds : (c : LiquidityCandidate) → Adds (clock + sending) (act_on c)
    unfolding act_on judge assess pass
    act_on-Adds c = Adds-read _ _ _ λ allowed.
        Costs-if (Within k) count _ (c.base == address_zero) _ _ (λ _. Adds-pure _ tt)
          λ _.
            Costs-if (Within k) count _ (not (is_some c.pair) && not allowed) _ _
              (λ _. Adds-pure _ tt)
              λ _. Adds-read _ _ _ λ risk.
                Costs-weaken (Within k) count (0 + (clock + sending)) _ _ (omega arith) (
                  Adds-bind 0 _ _ _ (Adds-pure 0 _) λ decision.
                    Costs-if (Within k) count _ (not decision.pass) _ _ (λ _. Adds-pure _ tt)
                      (λ _. execute_candidate-Adds c))

    on_candidate-Adds :
        (c : Option LiquidityCandidate) → Adds (resolving + (clock + sending)) (on_candidate c)
    unfolding on_candidate
    on_candidate-Adds none = Adds-pure _ tt
    on_candidate-Adds (some c) =
        Adds-bind resolving _ _ _ (resolve_candidate_pair-Adds c) (λ c'. act_on-Adds c')

    on_fetched-Adds : (tx : Option MempoolTx) → Adds (resolving + (clock + sending)) (on_fetched tx)
    unfolding on_fetched
    on_fetched-Adds none = Adds-pure _ tt
    on_fetched-Adds (some tx) =
        Adds-read _ _ _ λ detected. Adds-check _ detected _ λ c. on_candidate-Adds c

    -- A duplicate adds nothing, and a new hash at most one of each step, and the clock once more.
    pub on_checked-Adds :
        (hash : B256) (fresh : Bool)
        → Adds
            (elim fresh [ true ↦ fetching + (resolving + (clock + sending)) | false ↦ 0 ])
            (on_checked hash fresh)
    unfolding on_checked
    on_checked-Adds hash false = meter.duplicate
    on_checked-Adds hash true =
        Adds-read _ _ _ λ timeout.
          Adds-bind fetching _ _ _ (meter.fetches timeout hash) (λ tx. on_fetched-Adds tx)
