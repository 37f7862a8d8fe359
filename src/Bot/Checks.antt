-- ===== src/Bot/Checks.antt =====
-- crates/bot/src/orchestrator.rs: the checks of a run in the dedupe cache, and what they admit.
use sonic_edge.Base.{ℕ, suc, ◌≤◌, ◌<◌, ◌≡◌, ◌∙◌, ap, refl, Bool, List, [], ◌∷◌, length, All}
use sonic_edge.Base.Words.{saturating_add}
use sonic_edge.Exec.{Result, ok, err, panic, Exec, continue, ◌>>=◌, ◌>>◌}
use sonic_edge.Core.Types.{B256}
use sonic_edge.Core.Dedupe.{DedupeCache, check_and_update, check_all}
use sonic_edge.Core.Dedupe.Check.{IsBounded}
use sonic_edge.Core.Dedupe.Window.{check_and_update-window}
use sonic_edge.Bot.{World, Bot}
use sonic_edge.Bot.Handle.{Delivery, incremented, handle_hash, run}
use sonic_edge.Bot.Failures.{clock, checked}
use sonic_edge.Bot.Duplicates.{dedupe-handle_hash, handle_hash-seen}

-- What follows a hash, unless its handling ended with an error.
abbrev pub unless_failed : {A B : Type 0} → Result A → List B → List B
unless_failed (ok a) rest = rest
unless_failed (err e) rest = []
unless_failed panic rest = []

module _ {w : World} where
  -- The hashes that a run checks, each with the time of its check.
  unfoldable pub checks : List Delivery → Bot w → List (B256 × ℕ)
  checks [] bot = []
  checks (Delivery.pending hash ∷ rest) bot =
      let more = checks rest (handle_hash hash bot).1 in
      (hash, clock w.env bot.asked) ∷ unless_failed (handle_hash hash bot).0 more
  checks (Delivery.txpool hash ∷ rest) bot =
      let more = checks rest (handle_hash hash bot).1 in
      (hash, clock w.env bot.asked) ∷ unless_failed (handle_hash hash bot).0 more
  checks (Delivery.head number ∷ rest) bot = checks rest bot

  abbrev check_run : Bot w → List (B256 × ℕ) → List Bool × DedupeCache w.dedupe_lru
  check_run bot ops = check_all w.dedupe_lru bot.dedupe ops

  then_dedupe :
      (hash : B256) (bot : Bot w) (rest : Exec (Bot w) (Unit {0})) (ops : List (B256 × ℕ))
      → (rest (handle_hash hash bot).1).1.dedupe ≡ (check_run (handle_hash hash bot).1 ops).1
      → ((handle_hash hash >> rest) bot).1.dedupe
        ≡ (check_run bot
            ((hash, clock w.env bot.asked) ∷ unless_failed (handle_hash hash bot).0 ops)).1
  unfolding ◌>>=◌ check_all
  then_dedupe hash bot rest ops h = tail (handle_hash hash bot).0
    where
      same : (handle_hash hash bot).1.dedupe ≡ (checked bot hash).dedupe
      same = dedupe-handle_hash bot hash

      tail :
          (r : Result (Unit {0}))
          → (continue r (λ _. rest) (handle_hash hash bot).1).1.dedupe
            ≡ (check_all w.dedupe_lru (checked bot hash).dedupe (unless_failed r ops)).1
      tail (ok _) = h ∙ ap (λ d. (check_all w.dedupe_lru d ops).1) same
      tail (err e) = same
      tail panic = same

  -- The dedupe cache of a run is what its checks make of it, in order.
  pub dedupe-run :
      (deliveries : List Delivery) (bot : Bot w)
      → (run deliveries bot).1.dedupe ≡ (check_run bot (checks deliveries bot)).1
  unfolding run checks check_all ◌>>=◌
  dedupe-run [] bot = refl
  dedupe-run (Delivery.pending hash ∷ rest) bot =
      then_dedupe hash bot (run rest) _ (dedupe-run rest (handle_hash hash bot).1)
  dedupe-run (Delivery.txpool hash ∷ rest) bot =
      then_dedupe hash bot (run rest) _ (dedupe-run rest (handle_hash hash bot).1)
  dedupe-run (Delivery.head number ∷ rest) bot = dedupe-run rest bot

  -- For a bounded dedupe cache, a hash that is handled again at most the window after it was
  -- handled, however the first handling and the run that follows it ended, if that run checked
  -- fewer hashes than the cache holds and the clock did not go back before the first check, is only
  -- looked up and counted as a duplicate: the second handling returns, it asks nothing but the
  -- clock, and it changes nothing but the dedupe cache, the count of duplicates and the count of
  -- questions.
  pub handle_hash_again :
      (bot late : Bot w) (hash : B256) (between : List Delivery)
      → late ≡ (run between (handle_hash hash bot).1).1
      → IsBounded w.dedupe_lru bot.dedupe
      → length (checks between (handle_hash hash bot).1) < w.dedupe_lru.cap bot.dedupe.cache
      → All (λ op. clock w.env bot.asked ≤ op.1) (checks between (handle_hash hash bot).1)
      → clock w.env late.asked ≤ saturating_add (clock w.env bot.asked) bot.dedupe.ttl_ms
      → (d : DedupeCache w.dedupe_lru) × (handle_hash hash late ≡ (
        ok tt,
        record late {
          dedupe = d;
          dedup_hits = incremented late.dedup_hits;
          asked = suc late.asked;
        },
      ))
  handle_hash_again bot late hash between ran v room later within =
      let after = (handle_hash hash bot).1 in
      (
        _,
        handle_hash-seen late hash (
            ap (λ c. (check_and_update w.dedupe_lru c hash (clock w.env late.asked)).0)
              (ap (λ b. b.dedupe) ran
                ∙ dedupe-run between after
                ∙ ap (λ c. (check_all w.dedupe_lru c (checks between after)).1)
                    (dedupe-handle_hash bot hash))
            ∙ check_and_update-window w.dedupe_lru hash (clock w.env bot.asked) bot.dedupe
                (checks between after) (clock w.env late.asked) v room later within),
      )
