-- ===== src/Exec/Costs.antt =====
-- How much a method adds to a count that is read off its state: one rule for each way in which a
-- method is built.
use sonic_edge.Base.{ℕ, ◌+◌, ◌≤◌, ◌≡◌, refl, Bool, true, false, arith, if◌then◌else◌}
use sonic_edge.Exec.{Error, Result, ok, err, panic, Exec, pure, lift, continue, attempt, ◌>>=◌}
use sonic_edge.Exec.Ensures.{
  IfOk, Ensures, Any, Ensures-Any, Ensures-pure, Ensures-lift, Ensures-bind, Ensures-attempt,
}

module _ {S : Type 0} (P : S → Type 0) (count : S → ℕ) where
  -- From a state with `P` the method adds at most `n`, whatever it answers.
  pub record Costs {A : Type 0} (Q : A → Type 0) (n : ℕ) (m : Exec S A) : Type 0 where
    pub keeps : Ensures P Q m
    pub bound : (s : S) → P s → count (m s).1 ≤ n + count s

  module _ {A : Type 0} {Q : A → Type 0} where
    pub Costs-pure : (n : ℕ) (a : A) → Q a → Costs Q n (pure a)
    unfolding pure
    Costs-pure n a q = record { keeps = Ensures-pure a q; bound = λ s h. omega arith }

    pub Costs-lift : (n : ℕ) (r : Result A) → IfOk Q r → Costs Q n (lift r)
    unfolding lift
    Costs-lift n r q = record { keeps = Ensures-lift r q; bound = λ s h. omega arith }

    pub Costs-if :
        (n : ℕ) (b : Bool) (m m' : Exec S A)
        → (b ≡ true → Costs Q n m)
        → (b ≡ false → Costs Q n m')
        → Costs Q n (if b then m else m')
    Costs-if n true m m' km km' = km refl
    Costs-if n false m m' km km' = km' refl

    pub Costs-weaken : (a b : ℕ) (m : Exec S A) → a ≤ b → Costs Q a m → Costs Q b m
    Costs-weaken a b m le k = record { keeps = k.keeps; bound = λ s h. omega (arith, k.bound s h) }

  module _ {A B : Type 0} (Q : A → Type 0) (R : B → Type 0) where
    continue-bound :
        (n : ℕ) (r : Result A) (f : A → Exec S B) (s : S)
        → P s
        → IfOk Q r
        → ((a : A) → Q a → Costs R n (f a))
        → count (continue r f s).1 ≤ n + count s
    continue-bound n (ok a) f s h q kf = (kf a q).bound s h
    continue-bound n (err e) f s h q kf = omega arith
    continue-bound n panic f s h q kf = omega arith

    pub Costs-bind :
        (n k : ℕ) (m : Exec S A) (f : A → Exec S B)
        → Costs Q n m
        → ((a : A) → Q a → Costs R k (f a))
        → Costs R (n + k) (m >>= f)
    unfolding ◌>>=◌
    Costs-bind n k m f km kf = record {
      keeps = Ensures-bind P Q R m f km.keeps (λ a q. (kf a q).keeps);
      bound = λ s h. omega (
        arith,
        km.bound s h,
        continue-bound k (m s).0 f (m s).1 (km.keeps.at s h).0 (km.keeps.at s h).1 kf,
      );
    }

    pub Costs-attempt :
        (n k : ℕ) (m : Exec S A) (f : A → Exec S B) (g : Error → Exec S B)
        → Costs Q n m
        → ((a : A) → Q a → Costs R k (f a))
        → ((e : Error) → Costs R k (g e))
        → Costs R (n + k) (attempt m f g)
    unfolding attempt
    Costs-attempt n k m f g km kf kg = record {
      keeps = Ensures-attempt P Q R m f g km.keeps (λ a q. (kf a q).keeps) (λ e. (kg e).keeps);
      bound = λ s h.
          omega
            (arith, km.bound s h, handled (m s).0 (m s).1 (km.keeps.at s h).0 (km.keeps.at s h).1);
    }
      where
        handled :
            (r : Result A) (s : S)
            → P s
            → IfOk Q r
            → count
                (elim r as (λ _. Result B × S) [
                  | ok a ↦ f a s
                  | err e ↦ g e s
                  | panic ↦ (panic, s)
                ]).1
              ≤ k + count s
        handled (ok a) s h q = (kf a q).bound s h
        handled (err e) s h q = (kg e).bound s h
        handled panic s h q = omega arith

-- The same from every state and with nothing claimed of the value.
module _ {S : Type 0} (count : S → ℕ) where
  abbrev pub Spends : {A : Type 0} → ℕ → Exec S A → Type 0
  Spends n m = Costs Any count Any n m

  module _ {A : Type 0} where
    pub Spends-of : (n : ℕ) (m : Exec S A) → ((s : S) → count (m s).1 ≤ n + count s) → Spends n m
    Spends-of n m bound = record { keeps = Ensures-Any m; bound = λ s h. bound s }

    pub Spends-pure : (n : ℕ) (a : A) → Spends n (pure a)
    Spends-pure n a = Costs-pure Any count n a tt

    pub Spends-lift : (n : ℕ) (r : Result A) → Spends n (lift r)
    unfolding lift
    Spends-lift n r = Spends-of n _ (λ s. omega arith)

  module _ {A B : Type 0} (n k : ℕ) where
    pub Spends-bind :
        (m : Exec S A) (f : A → Exec S B)
        → Spends n m
        → ((a : A) → Spends k (f a))
        → Spends (n + k) (m >>= f)
    Spends-bind m f km kf = Costs-bind Any count Any Any n k m f km (λ a _. kf a)

    pub Spends-attempt :
        (m : Exec S A) (f : A → Exec S B) (g : Error → Exec S B)
        → Spends n m
        → ((a : A) → Spends k (f a))
        → ((e : Error) → Spends k (g e))
        → Spends (n + k) (attempt m f g)
    Spends-attempt m f g km kf kg = Costs-attempt Any count Any Any n k m f g km (λ a _. kf a) kg
