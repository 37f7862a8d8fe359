-- ===== src/Tests/Chains.antt =====
-- The channel and the backoff at concrete inputs.
use sonic_edge.Base.{
  ℕ, ◌+◌, ◌≤◌, ◌≡◌, refl, Bool, true, false, none, some, List, [], ◌∷◌, ◌++◌, arith, length, ltb,
  if◌then◌else◌,
}
use mathlib.Core.List.{foldl}
use sonic_edge.Chain.Channel.{
  SendAnswer, accepted, full, closed, Mpsc, Tracked, first, others, tracked_channel, count_sent,
  count_received,
}
use sonic_edge.Chain.Channel.Counting.{IsCounted, Call, send, receive, after, calls-IsCounted}
use sonic_edge.Chain.Channel.Racing.{
  Reaches, start, pushed, popped, received, sent, idle, overtaken, settled_within_one,
}
use sonic_edge.Chain.Streams.{hashes, backfill, backfill_lem}
use sonic_edge.Chain.Reconnect.{
  ReconnectConfig, Attempt, refused, session, waits, expected_waits, waits-eq-expected_waits,
}

-- A list with a capacity, and whether its receiver is there.
pub record Queue : Type 0 where
  pub items : List ℕ
  pub capacity : ℕ
  pub receiving : Bool

abbrev answer : Queue → SendAnswer
answer q =
    if q.receiving then if ltb (length q.items) q.capacity then accepted else full else closed

abbrev after_send : SendAnswer → Queue → ℕ → Queue
after_send accepted q v = record q { items = q.items ++ v ∷ [] }
after_send full q v = q
after_send closed q v = q

abbrev pub queues : Mpsc ℕ
queues = record {
  Channel = Queue;
  channel = λ n. record { items = []; capacity = n; receiving = true };
  try_send = λ q v. (answer q, after_send (answer q) q v);
  recv = λ q. (first q.items, record q { items = others q.items });
  items = λ q. q.items;
  cap = λ q. q.capacity;
  is_open = λ q. q.receiving;
  drop_receiver = λ q. record { items = []; capacity = q.capacity; receiving = false };
  items-channel = λ n. refl;
  cap-channel = λ n. refl;
  open-channel = λ n. refl;
  try_send_lem = λ q v. refl;
  items-accepted = λ q v e. rw e refl;
  try_send-full = λ q v e. rw e refl;
  try_send-closed = λ q v e. rw e refl;
  cap-try_send = λ q v. ground arith;
  open-try_send = λ q v. ground arith;
  recv_lem = λ q. refl;
  items-recv = λ q. refl;
  cap-recv = λ q. refl;
  open-recv = λ q. refl;
  open-drop_receiver = λ q. refl;
}

abbrev calls : List (Call queues)
calls = send 7 ∷ send 8 ∷ receive ∷ []

calls-IsCounted_example :
    IsCounted queues (foldl (after queues) (tracked_channel queues 2 (some 0) (some 0)) calls)
calls-IsCounted_example = calls-IsCounted queues 2 (some 0) (some 0) calls (omega arith)

overtaken_example :
    (t : Tracked queues) × Reaches queues 2 4 (idle queues t) × (t.chan.items ≡ []) × (t.len ≡ 1)
overtaken_example = overtaken queues 2 7 (omega arith)

-- The empty channel whose count is one.
abbrev drifted : Tracked queues
drifted = record {
  chan = record { items = []; capacity = 2; receiving = true };
  len = 1;
  queue_depth = none;
  dropped = none;
}

drifted_reached : Reaches queues 2 4 (idle queues drifted)
unfolding tracked_channel count_sent count_received
drifted_reached = sent (received (popped 7 (pushed 7 start refl) refl))

settled_within_one_example : (0 ≤ 1) × (1 ≤ 0 + 1)
settled_within_one_example = settled_within_one queues 2 4 drifted (omega arith) drifted_reached

abbrev delays : ReconnectConfig
delays = record { base_delay = 500; max_delay = 3000 }

abbrev attempts : List (Attempt ℕ)
attempts = refused ∷ refused ∷ refused ∷ refused ∷ session (7 ∷ []) ∷ refused ∷ []

waits-eq-expected_waits_example :
    waits delays 500 attempts ≡ 500 ∷ 1000 ∷ 2000 ∷ 3000 ∷ 500 ∷ 1000 ∷ []
unfolding expected_waits
waits-eq-expected_waits_example =
    waits-eq-expected_waits delays attempts (record { ordered = omega arith; small = omega arith })

-- Two places for three hashes.
backfill_lem_example :
    ((backfill queues (tracked_channel queues 2 none none) ((7 ∷ []) ∷ []) ((8 ∷ 9 ∷ []) ∷ [])).0
      ≡ false)
    × ((backfill queues
          (tracked_channel queues 2 none none)
          ((7 ∷ []) ∷ [])
          ((8 ∷ 9 ∷ []) ∷ [])).1.chan.items
        ≡ 7 ∷ 8 ∷ [])
unfolding hashes tracked_channel
backfill_lem_example =
    backfill_lem queues 2 (tracked_channel queues 2 none none) ((7 ∷ []) ∷ []) ((8 ∷ 9 ∷ []) ∷ [])
      refl refl
