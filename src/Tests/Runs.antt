-- ===== src/Tests/Runs.antt =====
-- Runs of the bot at concrete inputs.
use sonic_edge.Base.{
  suc, ◌+◌, ◌*◌, ◌≤◌, ◌≡◌, refl, List, [], ◌∷◌, arith, max, lookup, bytes_eq, contains, ℕ_discrete,
}
use sonic_edge.Base.Assoc.{remove, promote}
use sonic_edge.Base.Words.{saturating_add}
use sonic_edge.Exec.{ok, attempt, ◌>>=◌}
use sonic_edge.Core.Types.{B256, TransactionRequest}
use sonic_edge.Core.Env.{ask, now_ms}
use sonic_edge.Core.Dedupe.{DedupeCache, check_and_update}
use sonic_edge.Core.Dedupe.History.{note, Tracks}
use sonic_edge.Core.Dedupe.Admitted.{Unique, Among}
use sonic_edge.Chain.Fetcher.{fetch, map_tx}
use sonic_edge.Dex.Decoder.{v2_of_call, decode_router_calldata}
use sonic_edge.Dex.Pair.{get_pair_address, get_pair_tokens}
use sonic_edge.Dex.PairCache.{get_cached, insert_cached}
use sonic_edge.Dex.Resolve
use sonic_edge.Dex.Resolve.{resolve, resolve_with_now, resolve_factory, cached, remember}
use sonic_edge.Executor.Fees.{apply}
use sonic_edge.Executor.Nonce.{next_nonce}
use sonic_edge.Executor.TxBuilder.{build_buy_v2, request}
use sonic_edge.Risk.{assess, pass}
use sonic_edge.Bot.{detect_liquidity_add}
use sonic_edge.Bot.Handle.{
  Delivery, incremented, handle_hash, run, query, check_hash, on_checked, on_fetched, on_candidate,
  act_on, judge, execute_candidate, buy, take_nonce, send, read, count_hit, resolve_candidate_pair,
  with_cache,
}
use sonic_edge.Bot.Checks.{checks, handle_hash_again}
use sonic_edge.Bot.Once.{Matched, run-once}
use sonic_edge.Bot.Bought.{BoughtFor}
use sonic_edge.Bot.Questions.{run-questions}
use sonic_edge.Tests.Codecs.{an_executor_codec}
use sonic_edge.Tests.Building.{a_builder-IsWord}
use sonic_edge.Tests.Outside.{a_world}
use sonic_edge.Tests.Trading.{a_bot, deliveries}

run-questions_example : (run deliveries a_bot).1.asked ≤ (6 + 7 * max 1 1) * 3 + 0
run-questions_example = run-questions a_bot deliveries

abbrev other : List Delivery
other = Delivery.head 4 ∷ Delivery.txpool 402 ∷ []

-- The hash is checked twice; and after it another one, which the node does not answer about.
observed :
    (checks deliveries a_bot ≡ (400, 1000) ∷ (400, 1009) ∷ [])
    × (checks other (handle_hash 400 a_bot).1 ≡ (402, 1009) ∷ [])
    × ((run other (handle_hash 400 a_bot).1).1.asked ≡ 11)
unfolding run checks promote handle_hash query check_hash check_and_update saturating_add lookup
    remove ℕ_discrete on_checked on_fetched on_candidate act_on judge execute_candidate buy
    take_nonce next_nonce send read fetch ask now_ms detect_liquidity_add bytes_eq
    decode_router_calldata resolve_candidate_pair with_cache resolve resolve_with_now
    resolve_factory cached get_cached Resolve.query attempt get_pair_address get_pair_tokens
    remember insert_cached build_buy_v2 request apply assess pass ◌>>=◌ map_tx contains v2_of_call
    count_hit
observed = (refl, refl, refl)

nothing_seen : Tracks a_world.dedupe_lru 100 2 a_bot.dedupe []
nothing_seen = record {
  valid = record { positive = omega arith; bounded = omega arith };
  ttl = refl;
  cap = refl;
  window = refl;
}

run-once_example :
    (hashes : List B256) × (bought : List TransactionRequest) × Unique hashes
    × Among hashes (checks deliveries a_bot)
    × Matched (λ hash tx. BoughtFor an_executor_codec a_bot hash tx) hashes bought
    × ((run deliveries a_bot).1.sent ≡ bought)
unfolding note remove ℕ_discrete saturating_add
run-once_example =
    run-once an_executor_codec a_bot deliveries 1000 100 2 a_builder-IsWord nothing_seen
      (rw observed.0 (omega arith))
      (rw observed.0 ((omega arith, omega arith), ((omega arith, omega arith), tt)))

handle_hash_again_example :
    (d : DedupeCache a_world.dedupe_lru) × (handle_hash 400 (run other (handle_hash 400 a_bot).1).1
      ≡ (
        ok tt,
        record (run other (handle_hash 400 a_bot).1).1 {
          dedupe = d;
          dedup_hits = incremented (run other (handle_hash 400 a_bot).1).1.dedup_hits;
          asked = suc (run other (handle_hash 400 a_bot).1).1.asked;
        },
      ))
unfolding saturating_add
handle_hash_again_example =
    handle_hash_again a_bot (run other (handle_hash 400 a_bot).1).1 400 other refl
      (record { positive = omega arith; bounded = omega arith }) (rw observed.1 (omega arith))
      (rw observed.1 (omega arith, tt)) (rw observed.2 (omega arith))
