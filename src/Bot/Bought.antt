-- ===== src/Bot/Bought.antt =====
-- crates/bot/src/orchestrator.rs: the handling of a hash sends nothing, or a purchase of what the
-- transaction of that hash adds.
use sonic_edge.Base.{
  ℕ, suc, ◌≡◌, ◌∙◌, ap, sym, subst, refl, ◌⊎◌, inl, inr, Bool, true, false, Option, none, some,
  List, [], ◌∷◌, ◌++◌, arith, not, is_some, ◌==◌, ◌&&◌, Bool-cases, Elem, ◌≤◌,
}
use sonic_edge.Exec.{Result, ok, err, panic, pure, continue, ◌>>=◌}
use sonic_edge.Core.Types.{
  Address, B256, address_zero, MempoolTx, LiquidityCandidate, RpcTransaction, TransactionRequest,
}
use sonic_edge.Chain.Fetcher.{in_time, map_tx}
use sonic_edge.Executor.TxBuilder.Built.{IsWord, ExecutorCodec}
use sonic_edge.Risk.{pass, assess}
use sonic_edge.Bot.{World, Bot, detect_liquidity_add}
use sonic_edge.Bot.Detect.{FirstBase, legs, Detects, detect_liquidity_add_iff}
use sonic_edge.Bot.Handle.{
  read, count_hit, buy, execute_candidate, judge, act_on, on_candidate, on_checked,
  resolve_candidate_pair, handle_hash,
}
use sonic_edge.Bot.Kept.{SameSettings}
use sonic_edge.Bot.Terms.{IsBuy, SameTrade, SameTrade-IsBuy}
use sonic_edge.Bot.Buying.{deadline_now, buy-IsBuy}
use sonic_edge.Bot.Failures.{
  clock, verdict, checked, fetch_answer, answered, received, handle_hash-checked, handle_hash-late,
  handle_hash-unknown, handle_hash-unwound, handle_hash-fetched,
}
use sonic_edge.Bot.Purchase.{
  SameOrders, resolve_candidate_pair-SameOrders, resolve_candidate_pair-SameTrade,
}

in_time_lem : {A : Type 0} (o : Option (Result A)) (a : A) → in_time o ≡ ok a → o ≡ some (ok a)
in_time_lem none a e = absurd (ground arith)
in_time_lem (some r) a e = ap some e

module _ {w : World} where
  detected_first :
      (start bot : Bot w) (tx : MempoolTx) (c : LiquidityCandidate)
      → SameSettings start bot
      → Detects bot tx c
      → Detects start tx c
  detected_first start bot tx c s d = record {
    to = d.to;
    call = d.call;
    leg = d.leg;
    receiver = d.receiver;
    watched = subst (Elem d.to) s.routers d.watched;
    decoded = d.decoded;
    based = subst (λ bases. FirstBase bases d.leg (legs d.call)) s.base_tokens d.based;
    enough = subst (λ least. least ≤ d.leg.2) s.min_base_amount d.enough;
    result = rw (sym s.router_factories) d.result;
  }

  -- A candidate is bought, or nothing is done.
  act_on-cases :
      (c : LiquidityCandidate) (bot : Bot w)
      → (act_on c bot ≡ (ok tt, bot)) ⊎ (act_on c bot ≡ buy c bot)
  unfolding act_on judge execute_candidate read assess pass pure ◌>>=◌
  act_on-cases c bot = elim (Bool-cases (c.base == address_zero)) [
    | inl native ↦ inl (rw native refl)
    | inr based ↦ elim (Bool-cases (not (is_some c.pair) && not bot.allow_execution_without_pair)) [
      | inl unknown ↦ inl (rw based (rw unknown refl))
      | inr guarded ↦ elim (Bool-cases (bot.tx_builder.owner == address_zero)) [
        | inl unowned ↦ inl (rw based (rw guarded (rw unowned refl)))
        | inr owned ↦ inr (rw based (rw guarded (rw owned refl)))
      ]
    ]
  ]

  module _ (codec : ExecutorCodec w.executor_abi) (start : Bot w) where
    -- The transaction buys what the transaction of the hash, as the node answered it, adds.
    pub record BoughtFor (hash : B256) (bought : TransactionRequest) : Type 0 where
      pub question : ℕ
      pub tx : RpcTransaction
      pub found :
          w.env.get_transaction_by_hash question start.tx_fetch_timeout_ms hash
          ≡ some (ok (some tx))
      pub seen_ms : ℕ
      pub candidate : LiquidityCandidate
      pub detected : Detects start (map_tx tx seen_ms) candidate
      pub pair : Option Address
      pub deadline : ℕ
      pub nonce : ℕ
      pub buys : IsBuy w.executor_abi codec start.tx_builder candidate pair deadline nonce bought

    -- What becomes of the transactions sent, while a hash with a verdict is handled.
    pub data Outcome (hash : B256) (fresh : Bool) (before after : List TransactionRequest)
        : Type 0 where
      quiet : after ≡ before → Outcome hash fresh before after
      sending :
          (tx : TransactionRequest)
          → fresh ≡ true
          → BoughtFor hash tx
          → after ≡ before ++ tx ∷ []
          → Outcome hash fresh before after

    -- A purchase, or none, of a candidate.
    data Sends (c : LiquidityCandidate) (before after : List TransactionRequest) : Type 0 where
      none_sent : after ≡ before → Sends c before after
      one_sent :
          (tx : TransactionRequest) (pair : Option Address) (deadline nonce : ℕ)
          → IsBuy w.executor_abi codec start.tx_builder c pair deadline nonce tx
          → after ≡ before ++ tx ∷ []
          → Sends c before after

    act_on-Sends :
        (c : LiquidityCandidate) (bot : Bot w)
        → IsWord start.tx_builder
        → bot.tx_builder ≡ start.tx_builder
        → Sends c bot.sent (act_on c bot).1.sent
    act_on-Sends c bot small same = elim (act_on-cases c bot) [
      | inl left ↦ none_sent (ap (λ o. o.1.sent) left)
      | inr buying ↦
          let (tx, buys, state) = buy-IsBuy bot c codec (subst IsWord (sym same) small) in
          one_sent tx c.pair (deadline_now bot) bot.nonce.next
            (subst (λ b. IsBuy w.executor_abi codec b c c.pair (deadline_now bot) bot.nonce.next tx)
              same buys)
            (ap (λ o. o.1.sent) buying ∙ state)
    ]

    resolved-Sends :
        (c c' : LiquidityCandidate) (before between after : List TransactionRequest)
        → SameTrade c c'
        → between ≡ before
        → Sends c' between after
        → Sends c before after
    resolved-Sends c c' before between after trade same (none_sent e) = none_sent (e ∙ same)
    resolved-Sends c c' before between after trade same (one_sent tx pair deadline nonce buys e) =
        one_sent tx pair deadline nonce
          (SameTrade-IsBuy w.executor_abi codec start.tx_builder c c' pair deadline nonce tx trade
            buys)
          (e ∙ ap (λ (xs : List TransactionRequest). xs ++ tx ∷ []) same)

    on_candidate-Sends :
        (c : LiquidityCandidate) (bot : Bot w)
        → IsWord start.tx_builder
        → bot.tx_builder ≡ start.tx_builder
        → Sends c bot.sent (on_candidate (some c) bot).1.sent
    unfolding on_candidate ◌>>=◌
    on_candidate-Sends c bot small same = by_answer (resolve_candidate_pair c bot).0 refl
      where
        resolved : Bot w
        resolved = (resolve_candidate_pair c bot).1

        orders : SameOrders bot resolved
        orders = resolve_candidate_pair-SameOrders bot c

        by_answer :
            (r : Result LiquidityCandidate)
            → (resolve_candidate_pair c bot).0 ≡ r
            → Sends c bot.sent (continue r (λ c'. act_on c') resolved).1.sent
        by_answer (ok c') e =
            resolved-Sends c c' bot.sent resolved.sent _
              (resolve_candidate_pair-SameTrade bot c c' e) orders.sent
              (act_on-Sends c' resolved small (orders.tx_builder ∙ same))
        by_answer (err x) e = none_sent orders.sent
        by_answer panic e = none_sent orders.sent

    -- What a transaction leads to, if the detection answers `detected`.
    on_detected-Outcome :
        (bot : Bot w) (hash : B256) (tx : RpcTransaction)
        → IsWord start.tx_builder
        → SameSettings start bot
        → verdict bot hash ≡ true
        → fetch_answer bot hash ≡ ok (some tx)
        → Outcome hash (verdict bot hash) bot.sent (handle_hash hash bot).1.sent
    unfolding on_candidate ◌>>=◌
    on_detected-Outcome bot hash tx small s fresh found =
        subst (λ o. Outcome hash (verdict bot hash) bot.sent o.1.sent)
          (sym (handle_hash-fetched bot hash tx fresh found))
          (by_detection (detect_liquidity_add (answered bot hash) (received bot tx)) refl)
      where
        settled : SameSettings start (answered bot hash)
        settled = record {
          routers = s.routers;
          base_tokens = s.base_tokens;
          min_base_amount = s.min_base_amount;
          tx_builder = s.tx_builder;
          allowed = s.allowed;
          router_factories = s.router_factories;
          timeout = s.timeout;
          deadline_secs = s.deadline_secs;
        }

        answer :
            w.env.get_transaction_by_hash (suc bot.asked) start.tx_fetch_timeout_ms hash
            ≡ some (ok (some tx))
        answer =
            ap (λ t. w.env.get_transaction_by_hash (suc bot.asked) t hash) (sym s.timeout)
            ∙ in_time_lem _ _ found

        sent_for :
            (c : LiquidityCandidate) (after : List TransactionRequest)
            → Detects (answered bot hash) (received bot tx) c
            → Sends c bot.sent after
            → Outcome hash (verdict bot hash) bot.sent after
        sent_for c after d (none_sent e) = quiet e
        sent_for c after d (one_sent bought pair deadline nonce buys e) =
            sending bought fresh
              (record {
                question = suc bot.asked;
                tx = tx;
                found = answer;
                seen_ms = clock w.env (suc (suc bot.asked));
                candidate = c;
                detected = detected_first start (answered bot hash) (received bot tx) c settled d;
                pair = pair;
                deadline = deadline;
                nonce = nonce;
                buys = buys;
              })
              e

        by_detection :
            (r : Result (Option LiquidityCandidate))
            → detect_liquidity_add (answered bot hash) (received bot tx) ≡ r
            → Outcome hash
                (verdict bot hash)
                bot.sent
                (continue r (λ c. on_candidate c) (answered bot hash)).1.sent
        by_detection (ok none) e = quiet refl
        by_detection (ok (some c)) e =
            sent_for c _ ((detect_liquidity_add_iff (answered bot hash) (received bot tx) c).0 e)
              (on_candidate-Sends c (answered bot hash) small s.tx_builder)
        by_detection (err x) e = quiet refl
        by_detection panic e = quiet refl

    -- The handling of a hash sends nothing, or, if the hash is new, one purchase for it.
    pub handle_hash-Outcome :
        (bot : Bot w) (hash : B256)
        → IsWord start.tx_builder
        → SameSettings start bot
        → Outcome hash (verdict bot hash) bot.sent (handle_hash hash bot).1.sent
    unfolding on_checked count_hit
    handle_hash-Outcome bot hash small s = elim (Bool-cases (verdict bot hash)) [
      | inl fresh ↦ by_answer fresh (fetch_answer bot hash) refl
      | inr again ↦ quiet (ap (λ o. o.1.sent) (handle_hash-checked bot hash) ∙ duplicate again)
    ]
      where
        duplicate :
            verdict bot hash ≡ false
            → (on_checked hash (verdict bot hash) (checked bot hash)).1.sent ≡ bot.sent
        duplicate again = rw again refl

        by_answer :
            verdict bot hash ≡ true
            → (r : Result (Option RpcTransaction)) → fetch_answer bot hash ≡ r
            → Outcome hash (verdict bot hash) bot.sent (handle_hash hash bot).1.sent
        by_answer fresh (ok (some tx)) e = on_detected-Outcome bot hash tx small s fresh e
        by_answer fresh (ok none) e =
            quiet (ap (λ o. o.1.sent) (handle_hash-unknown bot hash fresh e))
        by_answer fresh (err x) e = quiet (ap (λ o. o.1.sent) (handle_hash-late bot hash x fresh e))
        by_answer fresh panic e = quiet (ap (λ o. o.1.sent) (handle_hash-unwound bot hash fresh e))
