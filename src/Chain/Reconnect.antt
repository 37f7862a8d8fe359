-- ===== src/Chain/Reconnect.antt =====
-- crates/chain/src/reconnect.rs, and the waits of the loops of pending.rs and heads.rs, which
-- share it. A `Duration` is its milliseconds: the program builds all of them from milliseconds.
use Prim.Native.Nat.{min}
use native.Mathlib.Nat.{pow-suc, mul_assoc}
use sonic_edge.Base.{
  ℕ, suc, ◌*◌, ◌%◌, ◌^◌, ◌-◌, ◌≤◌, ◌<◌, ◌≡◌, ◌∙◌, sym, ap, refl, List, [], ◌∷◌, arith,
}

pub record ReconnectConfig : Type 0 where
  pub base_delay : ℕ
  pub max_delay : ℕ

unfoldable pub new : ℕ → ℕ → ReconnectConfig
new base_ms max_ms = record { base_delay = base_ms; max_delay = max_ms }

-- `saturating_mul` on `u128`, then `as u64`.
unfoldable pub next_backoff : ℕ → ℕ → ℕ
next_backoff current limit =
    let next_ms = min (current * 2) (2 ^ 128 - 1) % 2 ^ 64 in
    let max_ms = limit % 2 ^ 64 in min next_ms max_ms

-- What an attempt to subscribe came to: the node refused, or the stream yielded items and ended.
pub data Attempt (T : Type 0) : Type 0 where
  refused : Attempt T
  session : List T → Attempt T

-- The wait before which `k` attempts have followed the last subscription.
abbrev pub capped : ReconnectConfig → ℕ → ℕ
capped cfg k = min (cfg.base_delay * 2 ^ k) cfg.max_delay

module _ {T : Type 0} where
  -- The loop, with the receiver present: the time slept after each attempt, from the current
  -- backoff on.
  unfoldable pub waits : ReconnectConfig → ℕ → List (Attempt T) → List ℕ
  waits cfg backoff [] = []
  waits cfg backoff (refused ∷ rest) = backoff ∷ waits cfg (next_backoff backoff cfg.max_delay) rest
  waits cfg backoff (session items ∷ rest) =
      cfg.base_delay ∷ waits cfg (next_backoff cfg.base_delay cfg.max_delay) rest

  unfoldable pub expected_waits : ReconnectConfig → ℕ → List (Attempt T) → List ℕ
  expected_waits cfg k [] = []
  expected_waits cfg k (refused ∷ rest) = capped cfg k ∷ expected_waits cfg (suc k) rest
  expected_waits cfg k (session items ∷ rest) = capped cfg 0 ∷ expected_waits cfg 1 rest

-- The largest wait can be doubled in `u64`, and the smallest is not larger.
pub record IsSane (cfg : ReconnectConfig) : Type 0 where
  pub ordered : cfg.base_delay ≤ cfg.max_delay
  pub small : cfg.max_delay < 2 ^ 63

next_backoff-min :
    (x limit : ℕ) → limit < 2 ^ 63 → next_backoff (min x limit) limit ≡ min (x * 2) limit
unfolding next_backoff
next_backoff-min x limit h = omega arith

-- The next wait is twice as long, up to the largest.
next_backoff-capped :
    (cfg : ReconnectConfig) (k : ℕ)
    → IsSane cfg
    → next_backoff (capped cfg k) cfg.max_delay ≡ capped cfg (suc k)
next_backoff-capped cfg k h =
    next_backoff-min (cfg.base_delay * 2 ^ k) cfg.max_delay h.small
    ∙ ap (λ n. min n cfg.max_delay) (mul_assoc cfg.base_delay (2 ^ k) 2)
    ∙ ap (λ n. min (cfg.base_delay * n) cfg.max_delay) (sym (pow-suc 2 k))

first_wait : (cfg : ReconnectConfig) → IsSane cfg → capped cfg 0 ≡ cfg.base_delay
first_wait cfg h = omega (arith, h.ordered)

waits-capped :
    {T : Type 0} (cfg : ReconnectConfig) (attempts : List (Attempt T)) (k : ℕ)
    → IsSane cfg
    → waits cfg (capped cfg k) attempts ≡ expected_waits cfg k attempts
unfolding waits expected_waits
waits-capped cfg [] k h = refl
waits-capped cfg (refused ∷ rest) k h =
    rw (next_backoff-capped cfg k h) (ap (◌∷◌ (capped cfg k)) (waits-capped cfg rest (suc k) h))
waits-capped cfg (session items ∷ rest) k h = rw (first_wait cfg h) (
    ap (◌∷◌ cfg.base_delay) (
      ap (λ b. waits cfg b rest)
        (ap (λ b. next_backoff b cfg.max_delay) (sym (first_wait cfg h))
          ∙ next_backoff-capped cfg 0 h)
      ∙ waits-capped cfg rest 1 h))

-- If the largest wait can be doubled in `u64` and the smallest is not larger, the wait after an
-- attempt to subscribe is the base delay, doubled for each attempt since the last subscription, and
-- at most the largest delay.
pub waits-eq-expected_waits :
    {T : Type 0} (cfg : ReconnectConfig) (attempts : List (Attempt T))
    → IsSane cfg
    → waits cfg cfg.base_delay attempts ≡ expected_waits cfg 0 attempts
waits-eq-expected_waits cfg attempts h =
    ap (λ b. waits cfg b attempts) (sym (first_wait cfg h)) ∙ waits-capped cfg attempts 0 h
