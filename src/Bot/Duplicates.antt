-- ===== src/Bot/Duplicates.antt =====
-- Handling a hash that was handled a short time ago.
use sonic_edge.Base.{◌≡◌, ◌∙◌, ap, sym, subst, refl, false}
use sonic_edge.Exec.{Result, ok, Exec, lift, ◌>>=◌}
use sonic_edge.Exec.Ensures.{Ensures, Any, Ensures-Any, Ensures-pure, Ensures-bind}
use sonic_edge.Core.Types.{B256, LiquidityCandidate, TransactionRequest}
use sonic_edge.Core.Env.{now_ms}
use sonic_edge.Bot.{World, Bot}
use sonic_edge.Bot.Handle.{
  incremented, read, query, take_nonce, send, buy, count_hit, on_checked, handle_hash,
}
use sonic_edge.Bot.Kept.{SameSettings, IsKept, on_checked-Ensures}
use sonic_edge.Bot.Failures.{verdict, checked, handle_hash-checked}

module _ {w : World} (start : Bot w) where
  record IsSettled (bot : Bot w) : Type 0 where
    pub settings : SameSettings start bot
    pub dedupe : bot.dedupe ≡ start.dedupe

  -- Settings and dedupe cache stay when all that a write changes is elsewhere.
  framed :
      (bot other : Bot w)
      → other.routers ≡ bot.routers
      → other.base_tokens ≡ bot.base_tokens
      → other.min_base_amount ≡ bot.min_base_amount
      → other.tx_builder ≡ bot.tx_builder
      → other.allow_execution_without_pair ≡ bot.allow_execution_without_pair
      → other.router_factories ≡ bot.router_factories
      → other.tx_fetch_timeout_ms ≡ bot.tx_fetch_timeout_ms
      → other.deadline_secs ≡ bot.deadline_secs
      → other.dedupe ≡ bot.dedupe
      → IsSettled bot
      → IsSettled other
  framed bot other a b c d e f g i j h = record {
    settings = record {
      routers = a ∙ h.settings.routers;
      base_tokens = b ∙ h.settings.base_tokens;
      min_base_amount = c ∙ h.settings.min_base_amount;
      tx_builder = d ∙ h.settings.tx_builder;
      allowed = e ∙ h.settings.allowed;
      router_factories = f ∙ h.settings.router_factories;
      timeout = g ∙ h.settings.timeout;
      deadline_secs = i ∙ h.settings.deadline_secs;
    };
    dedupe = j ∙ h.dedupe;
  }

  abbrev Settles : {A : Type 0} → Exec (Bot w) A → Type 0
  Settles m = Ensures IsSettled Any m

  Settles-bind :
      {A B : Type 0} (m : Exec (Bot w) A) (f : A → Exec (Bot w) B)
      → Settles m
      → ((a : A) → Settles (f a))
      → Settles (m >>= f)
  Settles-bind m f km kf = Ensures-bind IsSettled Any Any m f km (λ a _. kf a)

  take_nonce-Settles : Settles take_nonce
  unfolding take_nonce
  take_nonce-Settles = record {
    at = λ s h. (framed s _ refl refl refl refl refl refl refl refl refl h, tt);
  }

  query-Settles : Settles (query (now_ms w.env))
  unfolding query now_ms
  query-Settles = record {
    at = λ s h. (framed s _ refl refl refl refl refl refl refl refl refl h, tt);
  }

  read-Settles : {A : Type 0} (f : Bot w → A) → Settles (read f)
  unfolding read
  read-Settles f = record { at = λ s h. (h, tt) }

  lift-Settles : {A : Type 0} (r : Result A) → Settles (lift r)
  unfolding lift
  lift-Settles r = record { at = λ s h. (h, ((Ensures-Any (lift r)).at s tt).1) }

  send-Settles : (tx : TransactionRequest) → Settles (send tx)
  unfolding send
  send-Settles tx = record {
    at = λ s h. (
      framed s _ refl refl refl refl refl refl refl refl refl h,
      ((Ensures-Any (send tx)).at s tt).1,
    );
  }

  buy-Settles : (c : LiquidityCandidate) → Settles (buy c)
  unfolding buy
  buy-Settles c = Settles-bind _ _ take_nonce-Settles λ nonce. Settles-bind _ _ query-Settles λ now.
      Settles-bind _ _ (read-Settles _) λ built.
        Settles-bind _ _ (lift-Settles built)
          λ tx. Settles-bind _ _ (send-Settles tx) λ hash. Ensures-pure tt tt

  IsSettled-IsKept : IsKept start IsSettled
  IsSettled-IsKept = record {
    settings = λ bot h. h.settings;
    asked = λ bot n h. framed bot _ refl refl refl refl refl refl refl refl refl h;
    cached = λ bot c n h. framed bot _ refl refl refl refl refl refl refl refl refl h;
    counted = λ bot n h. framed bot _ refl refl refl refl refl refl refl refl refl h;
    bought = λ bot c h a. ((buy-Settles c).at bot h).0;
  }

module _ {w : World} where
  itself : (bot : Bot w) → IsSettled bot bot
  itself bot = record {
    settings = record {
      routers = refl;
      base_tokens = refl;
      min_base_amount = refl;
      tx_builder = refl;
      allowed = refl;
      router_factories = refl;
      timeout = refl;
      deadline_secs = refl;
    };
    dedupe = refl;
  }

  -- The handling of a hash leaves the settings as they are.
  pub settings-handle_hash : (bot : Bot w) (hash : B256) → SameSettings bot (handle_hash hash bot).1
  settings-handle_hash bot hash =
      let start = checked bot hash in
      let h =
        (on_checked-Ensures start (IsSettled-IsKept start) hash (verdict bot hash)).at start
          (itself start) in
      subst (λ o. SameSettings bot o.1) (sym (handle_hash-checked bot hash))
        (record {
          routers = h.0.settings.routers;
          base_tokens = h.0.settings.base_tokens;
          min_base_amount = h.0.settings.min_base_amount;
          tx_builder = h.0.settings.tx_builder;
          allowed = h.0.settings.allowed;
          router_factories = h.0.settings.router_factories;
          timeout = h.0.settings.timeout;
          deadline_secs = h.0.settings.deadline_secs;
        })

  -- All that follows the check leaves the dedupe cache as the check left it.
  pub dedupe-handle_hash :
      (bot : Bot w) (hash : B256) → (handle_hash hash bot).1.dedupe ≡ (checked bot hash).dedupe
  dedupe-handle_hash bot hash =
      let start = checked bot hash in
      ap (λ o. o.1.dedupe) (handle_hash-checked bot hash)
      ∙ ((on_checked-Ensures start (IsSettled-IsKept start) hash (verdict bot hash)).at start
          (itself start)).0.dedupe

  pub handle_hash-seen :
      (bot : Bot w) (hash : B256)
      → verdict bot hash ≡ false
      → handle_hash hash bot
        ≡ (ok tt, record (checked bot hash) { dedup_hits = incremented bot.dedup_hits })
  unfolding on_checked count_hit
  handle_hash-seen bot hash seen = handle_hash-checked bot hash ∙ rw (seen, on_checked) refl
