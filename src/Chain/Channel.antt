-- ===== src/Chain/Channel.antt =====
-- crates/chain/src/channel.rs: a bounded channel with a count of its items beside it.
pub mod Counting
pub mod Racing
pub mod Passing
use sonic_edge.Base.{
  ℕ, suc, ◌+◌, ◌-◌, ◌%◌, ◌^◌, ◌≡◌, Bool, Option, none, some, List, [], ◌∷◌, ◌++◌, length, ltb, ◌==◌,
  ◌||◌, if◌then◌else◌,
}

-- `Ok(())`, `TrySendError::Full` and `TrySendError::Closed`.
pub data SendAnswer : Type 0 where
  accepted full closed : SendAnswer

abbrev pub first : {T : Type 0} → List T → Option T
first [] = none
first (x ∷ xs) = some x

abbrev pub others : {T : Type 0} → List T → List T
others [] = []
others (x ∷ xs) = xs

-- `Semaphore::MAX_PERMITS` of tokio, `usize::MAX >> 3`.
abbrev pub max_permits : ℕ
max_permits = 2_305_843_009_213_693_951

-- The capacities for which `mpsc::channel` is documented to unwind.
abbrev pub is_refused : ℕ → Bool
is_refused capacity = capacity == 0 || ltb max_permits capacity

-- `tokio::sync::mpsc` with its documented behaviour: the queue of items, whose length `cap` bounds,
-- and whether the receiver is there. `recv` is a call that has an answer: the oldest item, or none
-- once there is neither item nor sender.
pub record Mpsc (T : Type 0) : Type 1 where
  pub Channel : Type 0
  pub channel : ℕ → Channel
  pub try_send : Channel → T → SendAnswer × Channel
  pub recv : Channel → Option T × Channel
  -- `Drop` of the receiver.
  pub drop_receiver : Channel → Channel
  pub items : Channel → List T
  pub cap : Channel → ℕ
  pub is_open : Channel → Bool
  pub items-channel : (n : ℕ) → items (channel n) ≡ []
  pub cap-channel : (n : ℕ) → cap (channel n) ≡ n
  pub open-channel : (n : ℕ) → is_open (channel n) ≡ Bool.true
  pub try_send_lem :
      (c : Channel) (v : T)
      → (try_send c v).0
        ≡ (if is_open c then if ltb (length (items c)) (cap c) then accepted else full else closed)
  pub items-accepted :
      (c : Channel) (v : T)
      → (try_send c v).0 ≡ accepted
      → items (try_send c v).1 ≡ items c ++ v ∷ []
  pub try_send-full : (c : Channel) (v : T) → (try_send c v).0 ≡ full → (try_send c v).1 ≡ c
  pub try_send-closed : (c : Channel) (v : T) → (try_send c v).0 ≡ closed → (try_send c v).1 ≡ c
  pub cap-try_send : (c : Channel) (v : T) → cap (try_send c v).1 ≡ cap c
  pub open-try_send : (c : Channel) (v : T) → is_open (try_send c v).1 ≡ is_open c
  pub recv_lem : (c : Channel) → (recv c).0 ≡ first (items c)
  pub items-recv : (c : Channel) → items (recv c).1 ≡ others (items c)
  pub cap-recv : (c : Channel) → cap (recv c).1 ≡ cap c
  pub open-recv : (c : Channel) → is_open (recv c).1 ≡ is_open c
  pub open-drop_receiver : (c : Channel) → is_open (drop_receiver c) ≡ Bool.false

module _ {T : Type 0} (mpsc : Mpsc T) where
  -- `TrackedSender` and `TrackedReceiver`, which share the count; without metrics there are no
  -- gauge and no counter.
  pub record Tracked : Type 0 where
    pub chan : mpsc.Channel
    pub len : ℕ
    pub queue_depth : Option ℕ
    pub dropped : Option ℕ

  unfoldable pub tracked_channel : ℕ → Option ℕ → Option ℕ → Tracked
  tracked_channel capacity queue_depth dropped = record {
    chan = mpsc.channel capacity;
    len = 0;
    queue_depth = queue_depth;
    dropped = dropped;
  }

  abbrev pub set_queue_depth : Option ℕ → ℕ → Option ℕ
  set_queue_depth none n = none
  set_queue_depth (some d) n = some n

  abbrev pub inc_dropped : Option ℕ → Option ℕ
  inc_dropped none = none
  inc_dropped (some n) = some (suc n)

  -- `fetch_add`, and the gauge.
  unfoldable pub count_sent : Tracked → Tracked
  count_sent t = record t {
    len = (t.len + 1) % 2 ^ 64;
    queue_depth = set_queue_depth t.queue_depth ((t.len + 1) % 2 ^ 64);
  }

  -- `fetch_update` with `checked_sub`, which leaves a zero, and the gauge, which shows the count as it
  -- is then.
  unfoldable pub count_received : Tracked → Tracked
  count_received t = record t {
    len = t.len - 1;
    queue_depth = set_queue_depth t.queue_depth (t.len - 1);
  }

  unfoldable pub try_send : Tracked → T → SendAnswer × Tracked
  try_send t v =
      let (answer, chan) = mpsc.try_send t.chan v in
      let tried = record t { chan = chan } in
      elim answer [
        | accepted ↦ (accepted, count_sent tried)
        | full ↦ (full, record tried { dropped = inc_dropped tried.dropped })
        | closed ↦ (closed, tried)
      ]

  unfoldable pub recv : Tracked → Option T × Tracked
  recv t =
      let (item, chan) = mpsc.recv t.chan in
      let taken = record t { chan = chan } in
      elim item [
        | some v ↦ (some v, count_received taken)
        | none ↦ (none, record taken { queue_depth = set_queue_depth t.queue_depth t.len })
      ]

  abbrev pub dropped_receiver : Tracked → Tracked
  dropped_receiver t = record t { chan = mpsc.drop_receiver t.chan }
