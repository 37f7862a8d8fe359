-- ===== src/Bot/System/Launched.antt =====
-- What `run` begins with, and what holds of all that it gets to.
use sonic_edge.Base.{
  ℕ, ◌≡◌, ap, subst, refl, Bool, true, false, ◌==◌, if◌then◌else◌, Option, none, some, [], arith,
}
use sonic_edge.Exec.{Result, ok, err, panic, pure, and_then}
use sonic_edge.Core.Types.{B256}
use sonic_edge.Chain.Channel.{Mpsc, is_refused}
use sonic_edge.Chain.Task.{Poll, spawn, spawn_poll}
use sonic_edge.Chain.Task.Alive.{spawn-IsAlive, spawn_poll-IsPolling}
use sonic_edge.Bot.{World, Bot}
use sonic_edge.Bot.Handle.{run}
use sonic_edge.Core.Config.{MempoolConfig}
use sonic_edge.Core.Parse.{contains_text}
use sonic_edge.Bot.System.{
  running, System, Reach, launch, launch_poll, reconnect_config, gauge, txpool_text,
}
use sonic_edge.Bot.System.Sound.{Polls, IsSound}
use sonic_edge.Bot.System.Reached.{Reach-IsSound}

abbrev ok_or : {A : Type 0} → A → Result A → A
ok_or d (ok a) = a
ok_or d (err e) = d
ok_or d panic = d

module _ {w : World} (hashes : Mpsc B256) (numbers : Mpsc ℕ) (first : Bot w) where
  -- What `run` begins with.
  abbrev pub begun : MempoolConfig → Option (Poll hashes) → System w hashes numbers
  begun cfg poll = record {
    pending = spawn hashes (reconnect_config cfg) cfg.fetch_concurrency (gauge first) (gauge first);
    heads = spawn numbers (reconnect_config cfg) 128 (gauge first) (gauge first);
    txpool = poll;
    bot = first;
    status = running;
    received = [];
  }

  begun-IsSound :
      (cfg : MempoolConfig) (poll : Option (Poll hashes))
      → launch_poll w hashes numbers cfg (gauge first) ≡ ok poll
      → IsSound hashes numbers first (begun cfg poll)
  unfolding launch_poll run pure
  begun-IsSound cfg poll e = record {
    tasks = record {
      pending = spawn-IsAlive hashes _ _ _ _;
      heads = spawn-IsAlive numbers _ _ _ _;
      txpool = polls (contains_text cfg.mode txpool_text) (cfg.txpool_poll_ms == 0) e;
    };
    ran = refl;
  }
    where
      polls :
          (polling zero : Bool)
          → (if polling
              then if zero
                then panic
                else ok (some (spawn_poll hashes 1024 (gauge first) (gauge first)))
              else ok none)
            ≡ ok poll
          → Polls hashes numbers first [] poll
      polls true true q = absurd (ground arith)
      polls true false q =
          subst (Polls hashes numbers first []) (ap (ok_or none) q)
            (spawn_poll-IsPolling hashes _ _ _)
      polls false zero q = subst (Polls hashes numbers first []) (ap (ok_or none) q) refl

  -- Whatever the launch makes is sound, and so is every state after it.
  pub launched-IsSound :
      (cfg : MempoolConfig) (start s : System w hashes numbers)
      → launch w hashes numbers cfg first ≡ ok start
      → Reach w hashes numbers (reconnect_config cfg) start s
      → IsSound hashes numbers first s
  unfolding launch
  launched-IsSound cfg start s made reached =
      Reach-IsSound hashes numbers first (reconnect_config cfg) start s reached (
        cased (is_refused cfg.fetch_concurrency) (launch_poll w hashes numbers cfg (gauge first))
          refl made)
    where
      cased :
          (zero : Bool) (r : Result (Option (Poll hashes)))
          → launch_poll w hashes numbers cfg (gauge first) ≡ r
          → (if zero then panic else and_then r (λ poll. ok (begun cfg poll))) ≡ ok start
          → IsSound hashes numbers first start
      cased true r q e = absurd (ground arith)
      cased false (ok poll) q e =
          subst (IsSound hashes numbers first) (ap (ok_or (begun cfg none)) e)
            (begun-IsSound cfg poll q)
      cased false (err x) q e = absurd (ground arith)
      cased false panic q e = absurd (ground arith)
