-- ===== src/Exec/Ensures.antt =====
-- Invariants and results of methods: one rule for each way in which a method is built.
use sonic_edge.Base.{◌≡◌, refl, Bool, true, false, if◌then◌else◌}
use sonic_edge.Exec.{
  Error, Result, ok, err, panic, Exec, pure, raise, lift, continue, attempt, ◌>>=◌,
}

abbrev pub IfOk : {A : Type 0} → (A → Type 0) → Result A → Type 0
IfOk Q (ok a) = Q a
IfOk Q _ = Unit

-- From a state with `P` the method ends in one, whatever it answers, and a value that it
-- returns has `Q`.
pub record Ensures {S A : Type 0} (P : S → Type 0) (Q : A → Type 0) (m : Exec S A) : Type 0 where
  pub at : (s : S) → P s → P (m s).1 × IfOk Q (m s).0

module _ {S A : Type 0} {P : S → Type 0} {Q : A → Type 0} where
  pub Ensures-pure : (a : A) → Q a → Ensures P Q (pure a)
  unfolding pure
  Ensures-pure a q = record { at = λ s h. (h, q) }

  pub Ensures-raise : (e : Error) → Ensures P Q (raise e)
  unfolding raise
  Ensures-raise e = record { at = λ s h. (h, tt) }

  pub Ensures-lift : (r : Result A) → IfOk Q r → Ensures P Q (lift r)
  unfolding lift
  Ensures-lift r q = record { at = λ s h. (h, q) }

  pub Ensures-if :
      (b : Bool) (m n : Exec S A)
      → (b ≡ true → Ensures P Q m)
      → (b ≡ false → Ensures P Q n)
      → Ensures P Q (if b then m else n)
  Ensures-if true m n km kn = km refl
  Ensures-if false m n km kn = kn refl

module _ {S A B : Type 0} (P : S → Type 0) (Q : A → Type 0) (R : B → Type 0) where
  continue-Ensures :
      (r : Result A) (f : A → Exec S B) (s : S)
      → P s
      → IfOk Q r
      → ((a : A) → Q a → Ensures P R (f a))
      → P (continue r f s).1 × IfOk R (continue r f s).0
  continue-Ensures (ok a) f s h q kf = (kf a q).at s h
  continue-Ensures (err e) f s h q kf = (h, tt)
  continue-Ensures panic f s h q kf = (h, tt)

  pub Ensures-bind :
      (m : Exec S A) (f : A → Exec S B)
      → Ensures P Q m
      → ((a : A) → Q a → Ensures P R (f a))
      → Ensures P R (m >>= f)
  unfolding ◌>>=◌
  Ensures-bind m f km kf = record {
    at = λ s h. continue-Ensures (m s).0 f (m s).1 (km.at s h).0 (km.at s h).1 kf;
  }

  pub Ensures-attempt :
      (m : Exec S A) (f : A → Exec S B) (g : Error → Exec S B)
      → Ensures P Q m
      → ((a : A) → Q a → Ensures P R (f a))
      → ((e : Error) → Ensures P R (g e))
      → Ensures P R (attempt m f g)
  unfolding attempt
  Ensures-attempt m f g km kf kg = record {
    at = λ s h. handled (m s).0 (m s).1 (km.at s h).0 (km.at s h).1;
  }
    where
      handled :
          (r : Result A) (s : S)
          → P s
          → IfOk Q r
          → P
              (elim r as (λ _. Result B × S) [
                | ok a ↦ f a s
                | err e ↦ g e s
                | panic ↦ (panic, s)
              ]).1
            × IfOk R
                (elim r as (λ _. Result B × S) [
                  | ok a ↦ f a s
                  | err e ↦ g e s
                  | panic ↦ (panic, s)
                ]).0
      handled (ok a) s h q = (kf a q).at s h
      handled (err e) s h q = (kg e).at s h
      handled panic s h q = (h, tt)

-- Nothing is claimed.
abbrev pub Any : {A : Type 0} → A → Type 0
Any _ = Unit

IfOk-Any : {A : Type 0} (r : Result A) → IfOk Any r
IfOk-Any (ok a) = tt
IfOk-Any (err e) = tt
IfOk-Any panic = tt

pub Ensures-Any : {S A : Type 0} (m : Exec S A) → Ensures Any Any m
Ensures-Any m = record { at = λ s h. (tt, IfOk-Any (m s).0) }

pub Ensures-weaken :
    {S A : Type 0} {P : S → Type 0} {Q R : A → Type 0} (m : Exec S A)
    → ((a : A) → Q a → R a)
    → Ensures P Q m
    → Ensures P R m
Ensures-weaken {A} {Q} {R} m w km = record {
  at = λ s h. ((km.at s h).0, weaker (m s).0 (km.at s h).1);
}
  where
    weaker : (r : Result A) → IfOk Q r → IfOk R r
    weaker (ok a) q = w a q
    weaker (err e) q = tt
    weaker panic q = tt

-- The same with a claim about the state that the method leaves, if it returns.
abbrev pub After : {S A : Type 0} → (A → S → Type 0) → Result A × S → Type 0
After Q (ok a, s) = Q a s
After Q (err e, s) = Unit
After Q (panic, s) = Unit

pub record Returns {S A : Type 0} (P : S → Type 0) (Q : A → S → Type 0) (m : Exec S A)
    : Type 0 where
  pub at : (s : S) → P s → After Q (m s)

module _ {S A B : Type 0} {P : S → Type 0} {R : B → S → Type 0} where
  continue-Returns :
      (r : Result A) (f : A → Exec S B) (s : S)
      → P s
      → ((a : A) → Returns P R (f a))
      → After R (continue r f s)
  continue-Returns (ok a) f s h kf = (kf a).at s h
  continue-Returns (err e) f s h kf = tt
  continue-Returns panic f s h kf = tt

  pub Returns-bind :
      (m : Exec S A) (f : A → Exec S B)
      → Ensures P Any m
      → ((a : A) → Returns P R (f a))
      → Returns P R (m >>= f)
  unfolding ◌>>=◌
  Returns-bind m f km kf = record {
    at = λ s h. continue-Returns (m s).0 f (m s).1 (km.at s h).0 kf;
  }
