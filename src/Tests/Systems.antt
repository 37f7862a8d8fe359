-- ===== src/Tests/Systems.antt =====
-- The bot with its tasks, in one order of their steps.
use sonic_edge.Base.{
  ◌≤◌, ◌<◌, ◌≡◌, ◌≢◌, ◌↔◌, ◌⊎◌, refl, true, some, ◌++◌, length, bytes_eq, contains, lookup,
  ℕ_discrete,
}
use sonic_edge.Base.Assoc.{remove, promote}
use sonic_edge.Base.Words.{saturating_add}
use sonic_edge.Exec.{Result, ok, err, panic, abi_error, attempt, ◌>>=◌}
use sonic_edge.Core.Config.{MempoolConfig}
use sonic_edge.Core.Env.{ask, now_ms}
use sonic_edge.Core.Parse.{starts_with, contains_text}
use sonic_edge.Core.Dedupe.{check_and_update}
use sonic_edge.Chain.Channel.{tracked_channel, try_send, recv, count_sent, count_received}
use sonic_edge.Chain.Fetcher.{fetch, map_tx}
use sonic_edge.Chain.Task.{Phase, spawn, spawn_poll, on_subscribed, on_item, Lifecycle, PendingStep}
use sonic_edge.Dex.Decoder.{v2_of_call, decode_router_calldata}
use sonic_edge.Dex.Pair.{get_pair_address, get_pair_tokens}
use sonic_edge.Dex.PairCache.{get_cached, insert_cached}
use sonic_edge.Dex.Resolve
use sonic_edge.Dex.Resolve.{resolve, resolve_with_now, resolve_factory, cached, remember}
use sonic_edge.Executor.Fees.{apply}
use sonic_edge.Executor.Nonce.{next_nonce}
use sonic_edge.Executor.TxBuilder.{build_buy_v2, request}
use sonic_edge.Risk.{assess, pass}
use sonic_edge.Bot.{detect_liquidity_add}
use sonic_edge.Bot.Handle.{
  Delivery, handle_hash, run, query, check_hash, on_checked, on_fetched, on_candidate, act_on,
  judge, execute_candidate, buy, take_nonce, send, read, count_hit, resolve_candidate_pair,
  with_cache,
}
use sonic_edge.Bot.System.{
  running, stopped, System, deliver, stop, handled, launch, launch_poll, reconnect_config,
  txpool_text, Step, Reach,
}
use sonic_edge.Bot.System.Received.{from_pending, from_heads, from_txpool}
use sonic_edge.Bot.System.Launched.{begun}
use sonic_edge.Bot.System.Promises.{
  outcome, Reach-run, Reach-in_order, Reach-stopped, launch-panic_iff, PollInOrder,
}
use sonic_edge.Tests.Outside.{a_world}
use sonic_edge.Tests.Trading.{a_bot}
use sonic_edge.Tests.Chains.{queues}
use sonic_edge.Tests.Setups.{a_cfg}

-- Both sources of hashes, and channels of two.
abbrev a_mempool : MempoolConfig
a_mempool = a_cfg.mempool

abbrev pub a_start : System a_world queues queues
a_start = begun queues queues a_bot a_mempool (some (spawn_poll queues 1024 (some 0) (some 0)))

pub launched : launch a_world queues queues a_mempool a_bot ≡ ok a_start
unfolding launch launch_poll contains_text starts_with
launched = refl

-- The stream of pending transactions is subscribed and yields the hash of an add.
abbrev subscribed : System a_world queues queues
subscribed = record a_start {
  pending = on_subscribed queues (reconnect_config a_mempool) a_start.pending;
}

abbrev yielded : System a_world queues queues
yielded = record subscribed { pending = on_item queues 400 subscribed.pending }

-- The loop receives it.
abbrev pub bought : System a_world queues queues
bought = handled a_world queues queues (Delivery.pending 400) (record yielded {
  pending = record (yielded.pending) { channel = (recv queues yielded.pending.channel).1 };
})

pub reached_bought : Reach a_world queues queues (reconnect_config a_mempool) a_start bought
unfolding on_subscribed on_item tracked_channel spawn try_send recv count_sent
reached_bought =
    Reach.later
      (Reach.later
        (Reach.later Reach.launched
          (Step.pending_task (PendingStep.lifecycle (Lifecycle.subscribed refl))))
        (Step.pending_task (PendingStep.hash 400 refl)))
      (Step.select_pending 400 refl refl)

Reach-run_example : run bought.received a_bot ≡ (outcome bought.status, bought.bot)
Reach-run_example = Reach-run queues queues a_mempool a_bot a_start bought launched reached_bought

-- The stream yields the hash of a malformed call, and the loop receives it.
abbrev malformed : System a_world queues queues
malformed = record subscribed { pending = on_item queues 401 subscribed.pending }

abbrev failed : System a_world queues queues
failed = handled a_world queues queues (Delivery.pending 401) (record malformed {
  pending = record (malformed.pending) { channel = (recv queues malformed.pending.channel).1 };
})

reached_failed : Reach a_world queues queues (reconnect_config a_mempool) a_start failed
unfolding on_subscribed on_item tracked_channel spawn try_send recv count_sent
reached_failed =
    Reach.later
      (Reach.later
        (Reach.later Reach.launched
          (Step.pending_task (PendingStep.lifecycle (Lifecycle.subscribed refl))))
        (Step.pending_task (PendingStep.hash 401 refl)))
      (Step.select_pending 401 refl refl)

pub ends :
    (bought.status ≡ running)
    × (failed.status ≡ stopped (err abi_error))
    × (failed.pending.phase ≡ Phase.listening)
    × (length bought.bot.sent ≡ 1)
unfolding handled deliver stop on_subscribed on_item tracked_channel spawn try_send recv count_sent
    handle_hash query check_hash check_and_update saturating_add lookup remove promote ℕ_discrete
    on_checked on_fetched on_candidate act_on judge execute_candidate buy take_nonce next_nonce send
    read fetch ask now_ms detect_liquidity_add bytes_eq decode_router_calldata
    resolve_candidate_pair with_cache resolve resolve_with_now resolve_factory cached get_cached
    Resolve.query attempt get_pair_address get_pair_tokens remember insert_cached build_buy_v2
    request apply assess pass ◌>>=◌ map_tx contains v2_of_call count_hit count_received
ends = (refl, refl, refl, refl)

Reach-in_order_example :
    ((from_pending bought.received ++ bought.pending.channel.chan.items
        ≡ bought.pending.accepted_items)
      × (length bought.pending.channel.chan.items ≤ bought.pending.channel.chan.capacity)
      × (bought.pending.phase ≢ Phase.returned))
    × ((from_heads bought.received ++ bought.heads.channel.chan.items ≡ bought.heads.accepted_items)
        × (length bought.heads.channel.chan.items ≤ bought.heads.channel.chan.capacity)
        × (bought.heads.phase ≢ Phase.returned))
    × PollInOrder queues (from_txpool bought.received) bought.txpool
Reach-in_order_example =
    Reach-in_order queues queues a_mempool a_bot a_start bought launched reached_bought ends.0

-- The stream goes on after the bot has stopped.
abbrev orphaned : System a_world queues queues
orphaned = record failed { pending = on_item queues 402 failed.pending }

abbrev its_error : Result (Unit {0})
its_error = err abi_error

Reach-stopped_example :
    (its_error ≢ ok tt)
    × ((orphaned.status ≡ stopped its_error)
        × (orphaned.bot ≡ failed.bot)
        × (orphaned.received ≡ failed.received))
    × (((on_item queues 403 failed.pending).phase ≡ Phase.returned)
        × ((on_item queues 4 failed.heads).phase ≡ Phase.returned))
Reach-stopped_example =
    Reach-stopped queues queues a_mempool a_bot a_start failed orphaned its_error 403 4 launched
      reached_failed ends.1
      (Reach.later Reach.launched (Step.pending_task (PendingStep.hash 402 ends.2)))

-- A configuration whose stream has no room.
abbrev no_room : MempoolConfig
no_room = record a_mempool { fetch_concurrency = 0 }

launch-panic_iff_example : (launch a_world queues queues no_room a_bot ≡ panic) ↔ (
    (no_room.fetch_concurrency ≡ 0)
    ⊎ (2_305_843_009_213_693_951 < no_room.fetch_concurrency)
    ⊎ ((contains_text no_room.mode txpool_text ≡ true) × (no_room.txpool_poll_ms ≡ 0)))
launch-panic_iff_example = launch-panic_iff queues queues no_room a_bot
