-- ===== src/Exec/Answers.antt =====
-- Methods whose answer does not depend on the state, as long as an invariant holds: one rule for
-- each way in which a method is built.
use sonic_edge.Base.{◌≡◌, refl, sym, subst, Bool, true, false, if◌then◌else◌}
use sonic_edge.Exec.{
  Error, Result, ok, err, panic, and_then, Exec, pure, lift, continue, attempt, ◌>>=◌,
}

-- From a state with `P` the method ends in one, and answers `r`.
pub record Answers {S A : Type 0} (P : S → Type 0) (r : Result A) (m : Exec S A) : Type 0 where
  pub at : (s : S) → P s → ((m s).0 ≡ r) × P (m s).1

-- `match`, on what a call answered.
abbrev pub or_else : {A B : Type 0} → Result A → (A → Result B) → (Error → Result B) → Result B
or_else (ok a) f g = f a
or_else (err e) f g = g e
or_else panic f g = panic

pub and_then_assoc :
    {A B C : Type 0} (r : Result A) (f : A → Result B) (g : B → Result C)
    → and_then r (λ a. and_then (f a) g) ≡ and_then (and_then r f) g
and_then_assoc (ok a) f g = refl
and_then_assoc (err e) f g = refl
and_then_assoc panic f g = refl

pub and_then_ok : {A : Type 0} (r : Result A) → and_then r (λ a. ok a) ≡ r
and_then_ok (ok a) = refl
and_then_ok (err e) = refl
and_then_ok panic = refl

-- Calls that agree, whatever comes before them, lead to the same.
pub and_then_congr :
    {A B : Type 0} (r : Result A) (f g : A → Result B)
    → ((a : A) → f a ≡ g a)
    → and_then r f ≡ and_then r g
and_then_congr (ok a) f g h = h a
and_then_congr (err e) f g h = refl
and_then_congr panic f g h = refl

pub or_else_congr :
    {A B : Type 0} (r : Result A) (f g : A → Result B) (k : Error → Result B)
    → ((a : A) → f a ≡ g a)
    → or_else r f k ≡ or_else r g k
or_else_congr (ok a) f g k h = h a
or_else_congr (err e) f g k h = refl
or_else_congr panic f g k h = refl

module _ {S A : Type 0} {P : S → Type 0} where
  pub Answers-same : {r t : Result A} {m : Exec S A} → r ≡ t → Answers P r m → Answers P t m
  Answers-same {m} e h = subst (λ q. Answers P q m) e h

  pub Answers-pure : (a : A) → Answers P (ok a) (pure a)
  unfolding pure
  Answers-pure a = record { at = λ s h. (refl, h) }

  pub Answers-lift : (r : Result A) → Answers P r (lift r)
  unfolding lift
  Answers-lift r = record { at = λ s h. (refl, h) }

  pub Answers-if :
      (b : Bool) (r : Result A) (m n : Exec S A)
      → (b ≡ true → Answers P r m)
      → (b ≡ false → Answers P r n)
      → Answers P r (if b then m else n)
  Answers-if true r m n km kn = km refl
  Answers-if false r m n km kn = kn refl

module _ {S A B : Type 0} {P : S → Type 0} where
  -- What follows a call may use what it answered.
  pub Answers-bind_ok :
      (r : Result A) (g : A → Result B) (m : Exec S A) (f : A → Exec S B)
      → Answers P r m
      → ((a : A) → r ≡ ok a → Answers P (g a) (f a))
      → Answers P (and_then r g) (m >>= f)
  unfolding ◌>>=◌
  Answers-bind_ok r g m f km kf = record {
    at = λ s h.
        subst
          (λ t. ((continue (m s).0 f (m s).1).0 ≡ and_then t g) × P (continue (m s).0 f (m s).1).1)
          (km.at s h).0 (continued (m s).0 (m s).1 (km.at s h).1 (sym (km.at s h).0));
  }
    where
      continued :
          (t : Result A) (s : S)
          → P s
          → r ≡ t
          → ((continue t f s).0 ≡ and_then t g) × P (continue t f s).1
      continued (ok a) s h e = (kf a e).at s h
      continued (err x) s h e = (refl, h)
      continued panic s h e = (refl, h)

  pub Answers-bind :
      (r : Result A) (g : A → Result B) (m : Exec S A) (f : A → Exec S B)
      → Answers P r m
      → ((a : A) → Answers P (g a) (f a))
      → Answers P (and_then r g) (m >>= f)
  Answers-bind r g m f km kf = Answers-bind_ok r g m f km (λ a _. kf a)

  pub Answers-attempt :
      (r : Result A) (g : A → Result B) (k : Error → Result B) (m : Exec S A) (f : A → Exec S B)
      (c : Error → Exec S B)
      → Answers P r m
      → ((a : A) → Answers P (g a) (f a))
      → ((e : Error) → Answers P (k e) (c e))
      → Answers P (or_else r g k) (attempt m f c)
  unfolding attempt
  Answers-attempt r g k m f c km kf kc = record {
    at = λ s h.
        subst (λ t. ((attempt m f c s).0 ≡ or_else t g k) × P (attempt m f c s).1) (km.at s h).0
          (handled (m s).0 (m s).1 (km.at s h).1);
  }
    where
      match : Result A → S → Result B × S
      match t s = elim t as (λ _. Result B × S) [
        | ok a ↦ f a s
        | err e ↦ c e s
        | panic ↦ (panic, s)
      ]

      handled : (t : Result A) (s : S) → P s → ((match t s).0 ≡ or_else t g k) × P (match t s).1
      handled (ok a) s h = (kf a).at s h
      handled (err e) s h = (kc e).at s h
      handled panic s h = (refl, h)
