-- ===== src/Bot/Detect.antt =====
-- `detect_liquidity_add` against a description of what it is to detect.
use sonic_edge.Base.{
  ℕ, ◌≤◌, ◌≡◌, ◌∙◌, sym, ap, subst, ◌↔◌, refl, inl, inr, Bool, false, Option, none, some, List, [],
  ◌∷◌, arith, contains, Elem, contains→Elem, Elem→contains, Bool-cases, Option-cases, lookup,
  ℕ_discrete, if◌then◌else◌,
}
use sonic_edge.Exec.{Result, ok, err, panic, and_then}
use sonic_edge.Core.Types.{Address, U256, address_zero, MempoolTx, LiquidityCandidate}
use sonic_edge.Dex.Decoder.{RouterCall, decode_router_calldata}
use sonic_edge.Bot.{
  World, Bot, candidate_above, if_based, candidate_of, of_call, detect_to, detect_liquidity_add,
}

-- A token that may be the base, with the token to buy and the amount of the base that is added.
abbrev pub Leg : Type 0
Leg = Address × Address × U256

-- The legs of a call, in the order in which they are considered. A native add has one, whose
-- amount is the least that it accepts.
abbrev pub legs : RouterCall → List Leg
legs (RouterCall.add_liquidity a) =
    (a.token_a, a.token_b, a.amount_a_desired) ∷ (a.token_b, a.token_a, a.amount_b_desired) ∷ []
legs (RouterCall.add_liquidity_eth a) = (address_zero, a.token, a.amount_eth_min) ∷ []
legs (RouterCall.add_liquidity_solidly a) =
    (a.token_a, a.token_b, a.amount_a_desired) ∷ (a.token_b, a.token_a, a.amount_b_desired) ∷ []

-- The kind of pool that the call names.
abbrev pub kind : RouterCall → Option Bool
kind (RouterCall.add_liquidity a) = none
kind (RouterCall.add_liquidity_eth a) = none
kind (RouterCall.add_liquidity_solidly a) = some a.stable

-- The first leg whose base is one of the base tokens.
pub data FirstBase (base_tokens : List Address) (leg : Leg) : List Leg → Type 0 where
  here : {rest : List Leg} → Elem leg.0 base_tokens → FirstBase base_tokens leg (leg ∷ rest)
  later :
      {other : Leg} {rest : List Leg}
      → ¬ Elem other.0 base_tokens
      → FirstBase base_tokens leg rest
      → FirstBase base_tokens leg (other ∷ rest)

first_base : List Address → List Leg → Option Leg
first_base base_tokens [] = none
first_base base_tokens (leg ∷ rest) =
    if contains base_tokens leg.0 then some leg else first_base base_tokens rest

not-Elem : (xs : List ℕ) (a : ℕ) → contains xs a ≡ false → ¬ Elem a xs
not-Elem xs a no_hit h = cc (Elem→contains xs a h)

contains-false : (xs : List ℕ) (a : ℕ) → ¬ Elem a xs → contains xs a ≡ false
contains-false xs a h = elim (Bool-cases (contains xs a)) [
  | inl hit ↦ absurd (h (contains→Elem xs a hit))
  | inr miss ↦ miss
]

first_base→FirstBase :
    (base_tokens : List Address) (ls : List Leg) (leg : Leg)
    → first_base base_tokens ls ≡ some leg
    → FirstBase base_tokens leg ls
unfolding first_base
first_base→FirstBase base_tokens [] leg h = absurd (ground arith)
first_base→FirstBase base_tokens (l ∷ rest) leg h = elim (Bool-cases (contains base_tokens l.0)) [
  | inl hit ↦
      let same : l ≡ leg = ground arith in
      subst (λ x. FirstBase base_tokens x (l ∷ rest)) same
        (here (contains→Elem base_tokens l.0 hit))
  | inr miss ↦
      later (not-Elem base_tokens l.0 miss)
        (first_base→FirstBase base_tokens rest leg (rw miss at h))
]

FirstBase→first_base :
    (base_tokens : List Address) {leg : Leg} {ls : List Leg}
    → FirstBase base_tokens leg ls
    → first_base base_tokens ls ≡ some leg
unfolding first_base
FirstBase→first_base base_tokens {leg} (here h) = rw (Elem→contains base_tokens leg.0 h)
FirstBase→first_base base_tokens (later {other} n h) =
    rw (contains-false base_tokens other.0 n) (FirstBase→first_base base_tokens h)

module _ {w : World} (bot : Bot w) (tx : MempoolTx) where
  -- The candidate that a leg of a call to a router makes.
  abbrev pub made : Address → RouterCall → Leg → LiquidityCandidate
  made to call leg = record {
    token = leg.1;
    base = leg.0;
    router = to;
    factory = lookup ℕ_discrete to bot.router_factories;
    pair = none;
    stable = kind call;
    add_liq_tx_hash = tx.hash;
    first_seen_ms = tx.first_seen_ms;
    implied_liquidity = leg.2;
  }

  -- The transaction calls a watched router to add liquidity, and the first base token of the call
  -- is added in at least the least amount.
  pub record Detects (c : LiquidityCandidate) : Type 0 where
    pub to : Address
    pub call : RouterCall
    pub leg : Leg
    pub receiver : tx.to ≡ some to
    pub watched : Elem to bot.routers
    pub decoded : decode_router_calldata w.router_abi tx.input ≡ ok (some call)
    pub based : FirstBase bot.base_tokens leg (legs call)
    pub enough : bot.min_base_amount ≤ leg.2
    pub result : c ≡ made to call leg

  candidate_of-first_base :
      (to : Address) (call : RouterCall)
      → candidate_of bot tx to call
        ≡ if_based bot tx to (kind call) (first_base bot.base_tokens (legs call))
  unfolding candidate_of first_base
  candidate_of-first_base to (RouterCall.add_liquidity a) = ground arith
  candidate_of-first_base to (RouterCall.add_liquidity_eth a) = ground arith
  candidate_of-first_base to (RouterCall.add_liquidity_solidly a) = ground arith

  -- A call makes a candidate exactly by its first base leg, if that is large enough.
  from_call :
      (to : Address) (call : RouterCall) (c : LiquidityCandidate)
      → candidate_of bot tx to call ≡ some c
      → (leg : Leg) × FirstBase bot.base_tokens leg (legs call)
        × (bot.min_base_amount ≤ leg.2)
        × (c ≡ made to call leg)
  unfolding candidate_above
  from_call to call c h = elim (Option-cases (first_base bot.base_tokens (legs call))) [
    | inl no_base ↦ absurd (ground (arith, candidate_of-first_base to call))
    | inr (leg, found) ↦
        let above : candidate_above bot tx to (kind call) leg ≡ some c =
          rw found at (sym (candidate_of-first_base to call) ∙ h) in
        (leg, first_base→FirstBase _ _ leg found, ground arith, ground arith)
  ]

  of_legs :
      (to : Address) (call : RouterCall) (leg : Leg)
      → FirstBase bot.base_tokens leg (legs call)
      → bot.min_base_amount ≤ leg.2
      → candidate_of bot tx to call ≡ some (made to call leg)
  unfolding candidate_above
  of_legs to call leg based enough =
      candidate_of-first_base to call ∙ rw (FirstBase→first_base _ based) (ground arith)

  decoded-Detects :
      (to : Address) (r : Result (Option RouterCall)) (c : LiquidityCandidate)
      → tx.to ≡ some to
      → Elem to bot.routers
      → decode_router_calldata w.router_abi tx.input ≡ r
      → and_then r (λ call. ok (of_call bot tx to call)) ≡ ok (some c)
      → Detects c
  decoded-Detects to (ok none) c e watched d h = absurd (ground arith)
  decoded-Detects to (err x) c e watched d h = absurd (ground arith)
  decoded-Detects to panic c e watched d h = absurd (ground arith)
  decoded-Detects to (ok (some call)) c e watched d h =
      let (leg, based, enough, result) = from_call to call c (ground arith) in
      record {
        to = to;
        call = call;
        leg = leg;
        receiver = e;
        watched = watched;
        decoded = d;
        based = based;
        enough = enough;
        result = result;
      }

  detect_to-Detects :
      (receiver : Option Address) (c : LiquidityCandidate)
      → tx.to ≡ receiver
      → detect_to bot tx receiver ≡ ok (some c)
      → Detects c
  unfolding detect_to
  detect_to-Detects none c e h = absurd (ground arith)
  detect_to-Detects (some to) c e h = elim (Bool-cases (contains bot.routers to)) [
    | inl watched ↦
        decoded-Detects to _ c e (contains→Elem bot.routers to watched) refl (rw watched at h)
    | inr other ↦ absurd (ground arith)
  ]

  Detects-detect_to : (c : LiquidityCandidate) → Detects c → detect_to bot tx tx.to ≡ ok (some c)
  unfolding detect_to
  Detects-detect_to c d =
      rw (d.receiver, detect_to)
        (rw (Elem→contains bot.routers d.to d.watched) (
          rw d.decoded
            (ap (λ o. ok o) (of_legs d.to d.call d.leg d.based d.enough ∙ ap some (sym d.result)))))

  -- A candidate is detected exactly when the transaction calls a watched router to add liquidity
  -- and the first base token of the call comes in at least the least amount; the candidate is the
  -- one of that leg.
  pub detect_liquidity_add_iff :
      (c : LiquidityCandidate) → (detect_liquidity_add bot tx ≡ ok (some c)) ↔ Detects c
  unfolding detect_liquidity_add
  detect_liquidity_add_iff c = (λ h. detect_to-Detects tx.to c refl h, Detects-detect_to c)
