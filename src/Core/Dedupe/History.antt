-- ===== src/Core/Dedupe/History.antt =====
-- Sequences of calls, against a deduplicator with no capacity limit.
use sonic_edge.Base.{
  ℕ, ◌≤◌, ◌≡◌, ◌∙◌, sym, refl, inl, inr, Bool, true, List, [], ◌∷◌, not, arith, max, length, take,
  lookup, Option-cases, take_of_length-le,
}
use mathlib.Core.List.{foldl}
use mathlib.Core.Path.{ap₂}
use sonic_edge.Base.Assoc.{remove, take-touch-take, lookup-take, length-remove-ge}
use sonic_edge.Base.Words.{saturating_add}
use sonic_edge.Lru.{Lru}
use sonic_edge.Core.Dedupe.{DedupeCache, new, check_and_update, check_all}
use sonic_edge.Core.Dedupe.Check.{
  IsBounded, seen, is_live, check_and_update-verdict, seen-check_and_update, cap-check_and_update,
  ttl-check_and_update, check_and_update-IsBounded, new-IsBounded,
}

module _ {K : Type 0} (dec : Discrete K) where
  -- Every key ever checked, with the expiry that its last check set, the latest first.
  unfoldable pub note : ℕ → List (K × ℕ) → K × ℕ → List (K × ℕ)
  note ttl_ms h (key, now_ms) = (key, saturating_add now_ms ttl_ms) ∷ remove dec key h

  -- The verdicts of a deduplicator that forgets nothing.
  unfoldable pub ideal_verdicts : ℕ → List (K × ℕ) → List (K × ℕ) → List Bool
  ideal_verdicts ttl_ms h [] = []
  ideal_verdicts ttl_ms h ((key, now_ms) ∷ ops) =
      not (is_live now_ms (lookup dec key h))
      ∷ ideal_verdicts ttl_ms (note ttl_ms h (key, now_ms)) ops

  length-note-ge : (ttl : ℕ) (h : List (K × ℕ)) (op : K × ℕ) → length h ≤ length (note ttl h op)
  unfolding note
  length-note-ge ttl h (key, now_ms) = omega (arith, length-remove-ge dec key h)

  length-foldl-note-ge :
      (ttl : ℕ) (h ops : List (K × ℕ)) → length h ≤ length (foldl (note ttl) h ops)
  length-foldl-note-ge ttl h [] = omega arith
  length-foldl-note-ge ttl h (op ∷ ops) =
      omega (arith, length-note-ge ttl h op, length-foldl-note-ge ttl (note ttl h op) ops)

-- Wherever the first list has `true`, so has the second, and they are of one length.
abbrev pub Covers : List Bool → List Bool → Type 0
Covers [] [] = Unit
Covers (x ∷ xs) (y ∷ ys) = (x ≡ true → y ≡ true) × Covers xs ys
Covers _ _ = ⊥

module _ {K : Type 0} {dec : Discrete K} (lru : Lru K ℕ dec) (ttl_ms capacity : ℕ) where
  -- The cache is the capacity's worth of a history.
  pub record Tracks (c : DedupeCache lru) (h : List (K × ℕ)) : Type 0 where
    pub valid : IsBounded lru c
    pub ttl : c.ttl_ms ≡ ttl_ms
    pub cap : lru.cap c.cache ≡ capacity
    pub window : seen lru c ≡ take capacity h

  check_and_update-Tracks :
      {c : DedupeCache lru} {h : List (K × ℕ)} (key : K) (now_ms : ℕ)
      → Tracks c h
      → Tracks (check_and_update lru c key now_ms).1 (note dec ttl_ms h (key, now_ms))
  unfolding note
  check_and_update-Tracks {c} {h} key now_ms t = record {
    valid = check_and_update-IsBounded lru c key now_ms t.valid;
    ttl = ttl-check_and_update lru c key now_ms ∙ t.ttl;
    cap = cap-check_and_update lru c key now_ms ∙ t.cap;
    window =
        rw (seen-check_and_update lru c key now_ms t.valid)
          (rw (t.window, t.cap, t.ttl) (take-touch-take dec capacity key _ h));
  }

  -- From a cache that holds a history up to its capacity, after any calls the cache holds the keys
  -- of the capacity's most recent checks, each with the expiry that its last check set, in the
  -- order of those checks.
  pub check_all-Tracks :
      (ops : List (K × ℕ)) {c : DedupeCache lru} {h : List (K × ℕ)}
      → Tracks c h
      → Tracks (check_all lru c ops).1 (foldl (note dec ttl_ms) h ops)
  unfolding check_all
  check_all-Tracks [] t = t
  check_all-Tracks ((key, now_ms) ∷ ops) t =
      check_all-Tracks ops (check_and_update-Tracks key now_ms t)

  is_live-take :
      (key : K) (now_ms : ℕ) (h : List (K × ℕ))
      → not (is_live now_ms (lookup dec key h)) ≡ true
      → not (is_live now_ms (lookup dec key (take capacity h))) ≡ true
  is_live-take key now_ms h fresh = elim (Option-cases (lookup dec key (take capacity h))) [
    | inl miss ↦ rw miss
    | inr (v, hit) ↦ rw hit (rw (lookup-take dec key capacity h v hit) at fresh)
  ]

  -- From a cache that holds a history up to its capacity, whatever was evicted, a key is refused
  -- only if a deduplicator that forgets nothing would refuse it: a check that the ideal one admits
  -- is admitted.
  pub check_all-Covers :
      (ops : List (K × ℕ)) {c : DedupeCache lru} {h : List (K × ℕ)}
      → Tracks c h
      → Covers (ideal_verdicts dec ttl_ms h ops) (check_all lru c ops).0
  unfolding check_all ideal_verdicts
  check_all-Covers [] t = tt
  check_all-Covers ((key, now_ms) ∷ ops) {c} {h} t = (
    λ fresh.
        check_and_update-verdict lru c key now_ms ∙ rw t.window (is_live-take key now_ms h fresh),
    check_all-Covers ops (check_and_update-Tracks key now_ms t),
  )

  -- From a cache that holds a history up to its capacity, and while the distinct keys fit the
  -- capacity, the verdicts of any sequence of checks are those of a deduplicator that forgets
  -- nothing.
  pub check_all-eq-ideal_verdicts :
      (ops : List (K × ℕ)) {c : DedupeCache lru} {h : List (K × ℕ)}
      → Tracks c h
      → length (foldl (note dec ttl_ms) h ops) ≤ capacity
      → (check_all lru c ops).0 ≡ ideal_verdicts dec ttl_ms h ops
  unfolding check_all ideal_verdicts
  check_all-eq-ideal_verdicts [] t fits = refl
  check_all-eq-ideal_verdicts ((key, now_ms) ∷ ops) {c} {h} t fits =
      ap₂ ◌∷◌
        (check_and_update-verdict lru c key now_ms
          ∙ rw
              (
                t.window,
                take_of_length-le capacity h
                    (omega (arith, length-foldl-note-ge dec ttl_ms h ((key, now_ms) ∷ ops))),
              )
              refl)
        (check_all-eq-ideal_verdicts ops (check_and_update-Tracks key now_ms t) fits)

-- A new cache is bounded and holds the empty history, whatever the configured capacity.
pub new-Tracks :
    {K : Type 0} {dec : Discrete K} (lru : Lru K ℕ dec) (capacity ttl_ms : ℕ)
    → Tracks lru ttl_ms (max capacity 1) (new lru capacity ttl_ms) []
unfolding new
new-Tracks lru capacity ttl_ms = record {
  valid = (new-IsBounded lru capacity ttl_ms).0;
  ttl = refl;
  cap = lru.cap-new _;
  window = lru.entries-new _ ∙ sym (take_of_length-le (max capacity 1) [] (omega arith));
}
