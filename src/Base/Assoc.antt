-- ===== src/Base/Assoc.antt =====
-- Association lists with unique keys in mind, over the library's `lookup`: the shape in which
-- hash maps and the entries of an LRU cache are read.
use Prim.Native.Nat.{ℕ, zero, suc, ◌+◌, ◌≤◌}
use mathlib.Core.Path.{◌≡◌, refl, ap, subst}
use mathlib.Core.Logic.{◌≢◌, ite, if_pos, if_neg, inl, inr}
use mathlib.Core.List.{List, [], ◌∷◌, lookup}
use mathlib.Core.Option.{none, some}
use sonic_edge.Base.Booleans.{Option-cases}
use native.Mathlib.Omega.{arith}
use sonic_edge.Base.Lists.{length, take, take_of_length-le, length-take, All}

module _ {K V : Type 0} (dec : Discrete K) where
  -- Drops the first entry of the key.
  unfoldable pub remove : K → List (K × V) → List (K × V)
  remove key [] = []
  remove key ((j, v) ∷ entries) = ite (dec key j) entries ((j, v) ∷ remove key entries)

  -- Overwrites the value of the key where it stands.
  unfoldable pub update : K → V → List (K × V) → List (K × V)
  update key v [] = []
  update key v ((j, w) ∷ entries) =
      ite (dec key j) ((key, v) ∷ entries) ((j, w) ∷ update key v entries)

  -- A hit moves to the front.
  unfoldable pub promote : K → List (K × V) → List (K × V)
  promote key entries = elim (lookup dec key entries) [
    | none ↦ entries
    | some v ↦ (key, v) ∷ remove key entries
  ]

  -- `HashMap::insert`
  unfoldable pub insert : K → V → List (K × V) → List (K × V)
  insert key v entries = (key, v) ∷ remove key entries

  pub lookup-cons_self :
      (key : K) (v : V) (entries : List (K × V)) → lookup dec key ((key, v) ∷ entries) ≡ some v
  unfolding lookup
  lookup-cons_self key v entries = if_pos (dec key key) refl _ _

  pub lookup-cons_ne :
      (key j : K) (v : V) (entries : List (K × V))
      → key ≢ j
      → lookup dec key ((j, v) ∷ entries) ≡ lookup dec key entries
  unfolding lookup
  lookup-cons_ne key j v entries h = ground arith

  pub lookup-remove_ne :
      (key other : K) (entries : List (K × V))
      → other ≢ key
      → lookup dec other (remove key entries) ≡ lookup dec other entries
  unfolding lookup remove
  lookup-remove_ne key other [] h = refl
  lookup-remove_ne key other ((j, v) ∷ entries) h =
      ground (arith, lookup-remove_ne key other entries)

  pub remove_absent :
      (key : K) (entries : List (K × V))
      → lookup dec key entries ≡ none
      → remove key entries ≡ entries
  unfolding lookup remove
  remove_absent key [] h = refl
  remove_absent key ((j, v) ∷ entries) h = ground (arith, remove_absent key entries)

  pub length-remove-le :
      (key : K) (entries : List (K × V)) → length (remove key entries) ≤ length entries
  unfolding remove
  length-remove-le key [] = omega arith
  length-remove-le key ((j, v) ∷ entries) = ground (arith, length-remove-le key entries)

  pub length-remove_hit :
      (key : K) (entries : List (K × V)) (v : V)
      → lookup dec key entries ≡ some v
      → length (remove key entries) + 1 ≡ length entries
  unfolding lookup remove
  length-remove_hit key [] v h = absurd (ground arith)
  length-remove_hit key ((j, w) ∷ entries) v h = ground (arith, length-remove_hit key entries v)

  pub update-promote :
      (key : K) (v w : V) (entries : List (K × V))
      → lookup dec key entries ≡ some w
      → update key v (promote key entries) ≡ (key, v) ∷ remove key entries
  unfolding update promote
  update-promote key v w entries h = rw (h, promote) (if_pos (dec key key) refl _ _)

  pub remove-promote :
      (key : K) (entries : List (K × V)) → remove key (promote key entries) ≡ remove key entries
  unfolding remove promote
  remove-promote key entries = elim (Option-cases (lookup dec key entries)) [
    | inl miss ↦ rw (miss, promote)
    | inr (v, hit) ↦ rw (hit, promote) (if_pos (dec key key) refl _ _)
  ]

  take-remove-take :
      (n : ℕ) (key : K) (entries : List (K × V))
      → take n (remove key (take (suc n) entries)) ≡ take n (remove key entries)
  unfolding remove
  take-remove-take zero key entries = refl
  take-remove-take (suc n) key [] = refl
  take-remove-take (suc n) key ((j, v) ∷ entries) = ground (
    arith,
    take-remove-take n key entries,
    take_of_length-le (suc n) (take (suc n) entries),
    length-take (suc n) entries,
  )

  -- To move an entry to the front and keep `n`, only the first `n` entries matter.
  pub take-touch-take :
      (n : ℕ) (key : K) (v : V) (entries : List (K × V))
      → take n ((key, v) ∷ remove key (take n entries)) ≡ take n ((key, v) ∷ remove key entries)
  take-touch-take zero key v entries = refl
  take-touch-take (suc n) key v entries = ap (◌∷◌ (key, v)) (take-remove-take n key entries)

  pub All-remove :
      (P : K × V → Type 0) (key : K) (entries : List (K × V))
      → All P entries
      → All P (remove key entries)
  unfolding remove
  All-remove P key [] h = tt
  All-remove P key ((j, v) ∷ entries) h = elim (dec key j) [
    | yes p ↦ rw (if_pos _ p) h.1
    | no p ↦ rw (if_neg _ p) (h.0, All-remove P key entries h.1)
  ]

  pub All-lookup :
      (P : K × V → Type 0) (key : K) (entries : List (K × V)) (v : V)
      → All P entries
      → lookup dec key entries ≡ some v
      → P (key, v)
  unfolding lookup
  All-lookup P key [] v h e = absurd (ground arith)
  All-lookup P key ((j, w) ∷ entries) v h e = elim (dec key j) [
    | yes p ↦ let same : (j, w) ≡ (key, v) = ground arith in subst P same h.0
    | no p ↦ All-lookup P key entries v h.1 (rw (if_neg _ p) at e)
  ]

  pub length-remove-ge :
      (key : K) (entries : List (K × V)) → length entries ≤ length (remove key entries) + 1
  unfolding remove
  length-remove-ge key [] = omega arith
  length-remove-ge key ((j, v) ∷ entries) = ground (arith, length-remove-ge key entries)

  -- What is found among the first entries is what is found among all.
  pub lookup-take :
      (key : K) (n : ℕ) (entries : List (K × V)) (v : V)
      → lookup dec key (take n entries) ≡ some v
      → lookup dec key entries ≡ some v
  unfolding lookup
  lookup-take key zero entries v h = absurd (ground arith)
  lookup-take key (suc n) [] v h = h
  lookup-take key (suc n) ((j, w) ∷ entries) v h = ground (arith, lookup-take key n entries v)
