-- ===== src/Bot/Failures.antt =====
-- Errors of one transaction, in `handle_hash` and in the loop of `run`.
use sonic_edge.Base.{
  ℕ, suc, ◌%◌, ◌^◌, ◌≡◌, ◌∙◌, refl, Bool, true, Option, none, some, List, ◌∷◌, get_or, Elem,
  Elem→contains,
}
use sonic_edge.Exec.{Error, Result, ok, err, panic, lift, ◌>>=◌}
use sonic_edge.Core.Types.{Address, B256, MempoolTx, RpcTransaction}
use sonic_edge.Core.Env.{Env, ask, now_ms}
use sonic_edge.Core.Dedupe.{check_and_update}
use sonic_edge.Chain.Fetcher.{fetch, fetched, in_time, map_tx}
use sonic_edge.Dex.Decoder.{decode_router_calldata}
use sonic_edge.Bot.{World, Bot, detect_to, detect_liquidity_add}
use sonic_edge.Bot.Handle.{
  Delivery, read, query, check_hash, on_checked, on_fetched, on_candidate, handle_hash, run,
}

-- The clock's answer to question `n`.
abbrev pub clock : Env → ℕ → ℕ
clock env n = get_or (env.system_time n) 0 % 2 ^ 64

module _ {w : World} where
  -- The verdict of the dedupe cache on a hash that is handled now.
  abbrev pub verdict : Bot w → B256 → Bool
  verdict bot hash = (check_and_update w.dedupe_lru bot.dedupe hash (clock w.env bot.asked)).0

  -- The bot after the check of the hash.
  abbrev pub checked : Bot w → B256 → Bot w
  checked bot hash = record bot {
    dedupe = (check_and_update w.dedupe_lru bot.dedupe hash (clock w.env bot.asked)).1;
    asked = suc bot.asked;
  }

  -- The node's answer to the fetch of the hash.
  abbrev pub fetch_answer : Bot w → B256 → Result (Option RpcTransaction)
  fetch_answer bot hash =
      in_time (w.env.get_transaction_by_hash (suc bot.asked) bot.tx_fetch_timeout_ms hash)

  -- The transaction as the fetcher maps it.
  abbrev pub received : Bot w → RpcTransaction → MempoolTx
  received bot tx = map_tx tx (clock w.env (suc (suc bot.asked)))

  pub handle_hash-checked :
      (bot : Bot w) (hash : B256)
      → handle_hash hash bot ≡ on_checked hash (verdict bot hash) (checked bot hash)
  unfolding handle_hash query check_hash now_ms ◌>>=◌
  handle_hash-checked bot hash = refl

  -- The bot after the answer to the fetch, with the number of questions asked by then.
  abbrev pub after_fetch : Bot w → B256 → ℕ → Bot w
  after_fetch bot hash asked = record (checked bot hash) { asked = asked }

  -- The bot when the fetched transaction is looked at: it asked the clock twice, and the node.
  abbrev pub answered : Bot w → B256 → Bot w
  answered bot hash = after_fetch bot hash (suc (suc (suc bot.asked)))

  pub handle_hash-late :
      (bot : Bot w) (hash : B256) (e : Error)
      → verdict bot hash ≡ true
      → fetch_answer bot hash ≡ err e
      → handle_hash hash bot ≡ (err e, after_fetch bot hash (suc (suc bot.asked)))
  unfolding on_checked read query fetch ask ◌>>=◌
  handle_hash-late bot hash e fresh late =
      handle_hash-checked bot hash ∙ rw (fresh, on_checked) (rw late refl)

  pub handle_hash-unwound :
      (bot : Bot w) (hash : B256)
      → verdict bot hash ≡ true
      → fetch_answer bot hash ≡ panic
      → handle_hash hash bot ≡ (panic, after_fetch bot hash (suc (suc bot.asked)))
  unfolding on_checked read query fetch ask ◌>>=◌
  handle_hash-unwound bot hash fresh unwound =
      handle_hash-checked bot hash ∙ rw (fresh, on_checked) (rw unwound refl)

  pub handle_hash-unknown :
      (bot : Bot w) (hash : B256)
      → verdict bot hash ≡ true
      → fetch_answer bot hash ≡ ok none
      → handle_hash hash bot ≡ (ok tt, after_fetch bot hash (suc (suc bot.asked)))
  unfolding on_checked on_fetched read query fetch fetched ask ◌>>=◌
  handle_hash-unknown bot hash fresh unknown =
      handle_hash-checked bot hash ∙ rw (fresh, on_checked) (rw unknown refl)

  pub handle_hash-fetched :
      (bot : Bot w) (hash : B256) (tx : RpcTransaction)
      → verdict bot hash ≡ true
      → fetch_answer bot hash ≡ ok (some tx)
      → handle_hash hash bot
        ≡ (lift (detect_liquidity_add (answered bot hash) (received bot tx)) >>= on_candidate)
            (answered bot hash)
  unfolding on_checked on_fetched read query fetch fetched ask now_ms ◌>>=◌
  handle_hash-fetched bot hash tx fresh found =
      handle_hash-checked bot hash ∙ rw (fresh, on_checked) (rw found refl)

  run_err :
      (bot final : Bot w) (hash : B256) (rest : List Delivery) (e : Error)
      → handle_hash hash bot ≡ (err e, final)
      → run (Delivery.pending hash ∷ rest) bot ≡ (err e, final)
  unfolding run ◌>>=◌
  run_err bot final hash rest e h = rw h refl

  -- If the fetch of a new hash fails or takes longer than the timeout, the run ends with that
  -- error, whatever is still to be delivered; the dedupe cache keeps the hash, and nothing else of
  -- the bot but the count of questions has changed.
  pub run-fetch_failure :
      (bot : Bot w) (hash : B256) (rest : List Delivery) (e : Error)
      → verdict bot hash ≡ true
      → fetch_answer bot hash ≡ err e
      → run (Delivery.pending hash ∷ rest) bot ≡ (err e, after_fetch bot hash (suc (suc bot.asked)))
  run-fetch_failure bot hash rest e fresh late =
      run_err bot _ hash rest e (handle_hash-late bot hash e fresh late)

  -- If a new hash is that of a transaction to a watched router whose calldata does not decode, the
  -- run ends with the decoder's error, whatever is still to be delivered; the dedupe cache keeps
  -- the hash, and nothing else of the bot but the count of questions has changed.
  pub run-decode_failure :
      (bot : Bot w) (hash : B256) (rest : List Delivery) (tx : RpcTransaction) (to : Address)
      (e : Error)
      → verdict bot hash ≡ true
      → fetch_answer bot hash ≡ ok (some tx)
      → tx.to ≡ some to
      → Elem to bot.routers
      → decode_router_calldata w.router_abi tx.input ≡ err e
      → run (Delivery.pending hash ∷ rest) bot ≡ (err e, answered bot hash)
  unfolding detect_liquidity_add detect_to map_tx ◌>>=◌
  run-decode_failure bot hash rest tx to e fresh found receiver watched malformed =
      run_err bot _ hash rest e (
        handle_hash-fetched bot hash tx fresh found
        ∙ rw receiver (rw (Elem→contains bot.routers to watched) (rw malformed refl)))
