-- ===== src/Core/Dedupe/Window.antt =====
-- The window: a key that was checked is refused until its expiry, while fewer other checks than
-- the capacity come between.
use sonic_edge.Base.{
  ℕ, zero, suc, ◌+◌, ◌≤◌, ◌<◌, ◌≡◌, ◌≢◌, ◌∙◌, ◌⊎◌, inl, inr, refl, sym, false, some, List, [], ◌∷◌,
  arith, length, take, lookup, All, le→leb,
}
use mathlib.Core.Logic.{if_pos, if_neg}
use sonic_edge.Base.Assoc.{remove}
use sonic_edge.Base.Words.{saturating_add, saturating_add_mono}
use sonic_edge.Lru.{Lru}
use sonic_edge.Core.Dedupe.{DedupeCache, check_and_update, check_all}
use sonic_edge.Core.Dedupe.Check.{
  IsBounded, seen, check_and_update-verdict, seen-check_and_update, cap-check_and_update,
  ttl-check_and_update, check_and_update-IsBounded,
}

module _ {K : Type 0} (dec : Discrete K) (key : K) (until : ℕ) where
  -- The key stands among the first `n` entries, and expires at `until` or later.
  abbrev pub Recent : ℕ → List (K × ℕ) → Type 0
  Recent zero l = ⊥
  Recent (suc n) [] = ⊥
  Recent (suc n) ((j, e) ∷ l) = ((key ≡ j) × (until ≤ e)) ⊎ ((key ≢ j) × Recent n l)

  Recent-suc : (n : ℕ) (l : List (K × ℕ)) → Recent n l → Recent (suc n) l
  Recent-suc (suc n) ((j, e) ∷ l) (inl h) = inl h
  Recent-suc (suc n) ((j, e) ∷ l) (inr (d, h)) = inr (d, Recent-suc n l h)
  Recent-suc zero l h = absurd h
  Recent-suc (suc n) [] h = absurd h

  Recent-remove :
      (n : ℕ) (j : K) (l : List (K × ℕ)) → key ≢ j → Recent n l → Recent n (remove dec j l)
  unfolding remove
  Recent-remove (suc n) j ((i, e) ∷ l) d (inl same) =
      rw (if_neg (dec j i) (λ p. d (same.0 ∙ sym p))) (inl same)
  Recent-remove (suc n) j ((i, e) ∷ l) d (inr rest) = elim (dec j i) [
    | yes p ↦ rw (if_pos _ p) (Recent-suc n l rest.1)
    | no p ↦ rw (if_neg _ p) (inr (rest.0, Recent-remove n j l d rest.1))
  ]
  Recent-remove zero j l d h = absurd h
  Recent-remove (suc n) j [] d h = absurd h

  Recent-take : (n m : ℕ) (l : List (K × ℕ)) → n ≤ m → Recent n l → Recent n (take m l)
  Recent-take zero m l le h = absurd h
  Recent-take (suc n) m [] le h = absurd h
  Recent-take (suc n) zero (x ∷ l) le h = absurd (omega arith)
  Recent-take (suc n) (suc m) ((i, e) ∷ l) le (inl h) = inl h
  Recent-take (suc n) (suc m) ((i, e) ∷ l) le (inr (d, h)) =
      inr (d, Recent-take n m l (omega arith) h)

  Recent-lookup :
      (n : ℕ) (l : List (K × ℕ)) → Recent n l → (e : ℕ) × (lookup dec key l ≡ some e) × (until ≤ e)
  unfolding lookup
  Recent-lookup zero l h = absurd h
  Recent-lookup (suc n) [] h = absurd h
  Recent-lookup (suc n) ((j, e) ∷ l) (inl (p, h)) = (e, if_pos (dec key j) p _ _, h)
  Recent-lookup (suc n) ((j, e) ∷ l) (inr (d, h)) =
      let (e', found, late) = Recent-lookup n l h in (e', rw (if_neg (dec key j) d) found, late)

module _ {K : Type 0} {dec : Discrete K} (lru : Lru K ℕ dec) (key : K) (t : ℕ) where
  -- Each later check pushes the key back by one place at most, and never shortens its window.
  check_and_update-Recent :
      (n until : ℕ) (c : DedupeCache lru) (j : K) (now_ms : ℕ)
      → IsBounded lru c
      → until ≤ saturating_add now_ms c.ttl_ms
      → suc n ≤ lru.cap c.cache
      → Recent dec key until n (seen lru c)
      → Recent dec key until (suc n) (seen lru (check_and_update lru c j now_ms).1)
  check_and_update-Recent n until c j now_ms v late room h =
      rw (seen-check_and_update lru c j now_ms v) (
        Recent-take dec key until (suc n) _ _ room (elim (dec key j) [
          | yes p ↦ inl (p, late)
          | no p ↦ inr (p, Recent-remove dec key until n j (seen lru c) p h)
        ]))

  check_all-Recent :
      (ttl_ms : ℕ) (ops : List (K × ℕ)) (n : ℕ) (c : DedupeCache lru)
      → IsBounded lru c
      → c.ttl_ms ≡ ttl_ms
      → n + length ops ≤ lru.cap c.cache
      → All (λ op. t ≤ op.1) ops
      → Recent dec key (saturating_add t ttl_ms) n (seen lru c)
      → (m : ℕ) × Recent dec key (saturating_add t ttl_ms) m (seen lru (check_all lru c ops).1)
  unfolding check_all
  check_all-Recent ttl_ms [] n c v same room later h = (n, h)
  check_all-Recent ttl_ms ((j, now_ms) ∷ ops) n c v same room later h =
      check_all-Recent ttl_ms ops (suc n) (check_and_update lru c j now_ms).1
        (check_and_update-IsBounded lru c j now_ms v) (ttl-check_and_update lru c j now_ms ∙ same)
        (omega (arith, cap-check_and_update lru c j now_ms)) later.1
        (check_and_update-Recent n (saturating_add t ttl_ms) c j now_ms v
          (rw same (saturating_add_mono t now_ms ttl_ms later.0)) (omega arith) h)

  -- In a bounded cache, a key checked at time `t` is refused again up to `t` plus the window,
  -- whatever else is checked in between at `t` or later, while those checks are fewer than the
  -- capacity.
  pub check_and_update-window :
      (c : DedupeCache lru) (ops : List (K × ℕ)) (now_ms : ℕ)
      → IsBounded lru c
      → length ops < lru.cap c.cache
      → All (λ op. t ≤ op.1) ops
      → now_ms ≤ saturating_add t c.ttl_ms
      → (check_and_update lru (check_all lru (check_and_update lru c key t).1 ops).1 key now_ms).0
        ≡ false
  check_and_update-window c ops now_ms v room later within =
      check_and_update-verdict lru _ key now_ms
      ∙ rw held.1 (rw (le→leb now_ms held.0 (omega (arith, held.2))))
    where
      first :
          Recent dec key (saturating_add t c.ttl_ms) 1 (seen lru (check_and_update lru c key t).1)
      first =
          rw (seen-check_and_update lru c key t v)
            (Recent-take dec key _ 1 _ _ v.positive (inl (refl, omega arith)))

      last :
          (m : ℕ) × Recent dec key
            (saturating_add t c.ttl_ms)
            m
            (seen lru (check_all lru (check_and_update lru c key t).1 ops).1)
      last =
          check_all-Recent c.ttl_ms ops 1 (check_and_update lru c key t).1
            (check_and_update-IsBounded lru c key t v) (ttl-check_and_update lru c key t)
            (omega (arith, cap-check_and_update lru c key t)) later first

      held :
          (e : ℕ) × (lookup dec key
              (seen lru (check_all lru (check_and_update lru c key t).1 ops).1)
            ≡ some e)
          × (saturating_add t c.ttl_ms ≤ e)
      held = Recent-lookup dec key _ last.0 _ last.1
