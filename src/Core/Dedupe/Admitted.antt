-- ===== src/Core/Dedupe/Admitted.antt =====
-- The keys that a sequence of calls admits, while every call falls into the window of the others.
use sonic_edge.Base.{
  ℕ, ◌≤◌, ◌≡◌, ◌≢◌, ◌∙◌, sym, refl, inl, inr, Bool, true, false, none, some, List, [], ◌∷◌, arith,
  length, lookup, All, Option-cases, le→leb, subst, map, Elem,
}
use mathlib.Core.List.{foldl}
use sonic_edge.Base.Assoc.{
  remove, lookup-cons_self, lookup-cons_ne, lookup-remove_ne, All-remove, All-lookup,
}
use sonic_edge.Base.Words.{saturating_add, saturating_add_mono}
use sonic_edge.Lru.{Lru}
use sonic_edge.Core.Dedupe.{DedupeCache, check_all}
use sonic_edge.Core.Dedupe.History.{note, ideal_verdicts, Tracks, check_all-eq-ideal_verdicts}

module _ {K : Type 0} where
  -- The keys of the calls that the verdicts admit.
  abbrev pub admitted : List (K × ℕ) → List Bool → List K
  admitted (op ∷ ops) (true ∷ verdicts) = op.0 ∷ admitted ops verdicts
  admitted (op ∷ ops) (false ∷ verdicts) = admitted ops verdicts
  admitted [] verdicts = []
  admitted (op ∷ ops) [] = []

  -- No key twice.
  abbrev pub Unique : List K → Type 0
  Unique [] = Unit
  Unique (k ∷ ks) = All (λ j. k ≢ j) ks × Unique ks

  -- Every key is that of a call.
  abbrev pub Among : List K → List (K × ℕ) → Type 0
  Among ks ops = All (λ k. Elem k (map (λ op. op.0) ops)) ks

  Elem-later : (op : K × ℕ) (ops : List (K × ℕ)) (ks : List K) → Among ks ops → Among ks (op ∷ ops)
  Elem-later op ops [] h = tt
  Elem-later op ops (k ∷ ks) h = (inr h.0, Elem-later op ops ks h.1)

  pub admitted-Among :
      (ops : List (K × ℕ)) (verdicts : List Bool) → Among (admitted ops verdicts) ops
  admitted-Among [] verdicts = tt
  admitted-Among (op ∷ ops) [] = tt
  admitted-Among (op ∷ ops) (true ∷ verdicts) =
      (inl refl, Elem-later op ops _ (admitted-Among ops verdicts))
  admitted-Among (op ∷ ops) (false ∷ verdicts) = Elem-later op ops _ (admitted-Among ops verdicts)

  -- Each call is at `from` or later, and at most the window after it.
  abbrev pub InWindow : ℕ → ℕ → List (K × ℕ) → Type 0
  InWindow from ttl_ms ops = All (λ op. (from ≤ op.1) × (op.1 ≤ saturating_add from ttl_ms)) ops

some-ne-none : {A : Type 0} {a : A} → some a ≡ none → ⊥
some-ne-none h = ground arith

All-map :
    {A : Type 0} {P Q : A → Type 0} → ((a : A) → P a → Q a) → (xs : List A) → All P xs → All Q xs
All-map f [] h = tt
All-map f (x ∷ xs) h = (f x h.0, All-map f xs h.1)

module _ {K : Type 0} (dec : Discrete K) (from ttl_ms : ℕ) where
  abbrev Live : List (K × ℕ) → Type 0
  Live h = All (λ entry. saturating_add from ttl_ms ≤ entry.1) h

  note-Live :
      (h : List (K × ℕ)) (key : K) (now_ms : ℕ)
      → from ≤ now_ms
      → Live h
      → Live (note dec ttl_ms h (key, now_ms))
  unfolding note
  note-Live h key now_ms late live =
      (saturating_add_mono from now_ms ttl_ms late, All-remove dec _ key h live)

  -- What is absent after a call was absent before, and is not the key.
  absent_before :
      (h : List (K × ℕ)) (key j : K) (now_ms : ℕ)
      → lookup dec j (note dec ttl_ms h (key, now_ms)) ≡ none
      → (key ≢ j) × (lookup dec j h ≡ none)
  unfolding note
  absent_before h key j now_ms absent =
      let e = saturating_add now_ms ttl_ms in
      let found = lookup-cons_self dec key e (remove dec key h) in
      elim (dec j key) [
        | yes same ↦
            let lost = subst (λ k. lookup dec k ((key, e) ∷ remove dec key h) ≡ none) same absent in
            absurd (some-ne-none (sym found ∙ lost))
        | no other ↦ (
          λ p. other (sym p),
          sym (lookup-remove_ne dec key j h other)
              ∙ sym (lookup-cons_ne dec j key e (remove dec key h) other)
              ∙ absent,
        )
      ]

  abbrev Fresh : List (K × ℕ) → List K → Type 0
  Fresh h ks = Unique ks × All (λ k. lookup dec k h ≡ none) ks

  -- The ideal deduplicator admits each key once, and none that it has seen.
  ideal-Fresh :
      (h ops : List (K × ℕ))
      → Live h
      → InWindow from ttl_ms ops
      → Fresh h (admitted ops (ideal_verdicts dec ttl_ms h ops))
  unfolding ideal_verdicts
  ideal-Fresh h [] live within = (tt, tt)
  ideal-Fresh h ((key, now_ms) ∷ ops) live within =
      let (unique, absent) =
        ideal-Fresh (note dec ttl_ms h (key, now_ms)) ops (note-Live h key now_ms within.0.0 live)
          within.1 in
      let before : (j : K) → lookup dec j (note dec ttl_ms h (key, now_ms)) ≡ none → _ =
        λ j p. absent_before h key j now_ms p in
      elim (Option-cases (lookup dec key h)) [
        | inl miss ↦ rw miss (
          (All-map (λ j p. (before j p).0) _ absent, unique),
          (miss, All-map (λ j p. (before j p).1) _ absent),
        )
        | inr (e, hit) ↦
            let expiry = All-lookup dec _ key h e live hit in
            rw (hit, le→leb now_ms e (omega (arith, within.0.1)))
              (unique, All-map (λ j p. (before j p).1) _ absent)
      ]

module _ {K : Type 0} {dec : Discrete K} (lru : Lru K ℕ dec) where
  -- From a new cache that holds all the distinct keys checked, and while each call falls into the
  -- window of the earliest, no key is admitted twice.
  pub check_all-Unique :
      (ops : List (K × ℕ)) (c : DedupeCache lru) (from ttl_ms capacity : ℕ)
      → Tracks lru ttl_ms capacity c []
      → length (foldl (note dec ttl_ms) [] ops) ≤ capacity
      → InWindow from ttl_ms ops
      → Unique (admitted ops (check_all lru c ops).0)
  check_all-Unique ops c from ttl_ms capacity t fits within =
      subst (λ verdicts. Unique (admitted ops verdicts))
        (sym (check_all-eq-ideal_verdicts lru ttl_ms capacity ops t fits))
        (ideal-Fresh dec from ttl_ms [] ops tt within).0
