-- ===== src/Exec.antt =====
-- Rust's `Result` with the panic of an unwinding call beside it, and methods that change a state
-- and may fail. What was written before an error stays written, so the state comes back beside
-- the error too.
pub mod Ensures
pub mod Costs
pub mod Answers
use sonic_edge.Base.{◌≡◌, ap, refl, ◌⊎◌, inl, inr}

-- `anyhow::Error`, told apart by what raised it.
pub data Error : Type 0 where
  rpc_error abi_error timeout_error parse_error : Error

pub data Result {ℓ} (A : Type ℓ) : Type ℓ where
  ok : A → Result A
  err : Error → Result A
  panic : Result A

-- The `?` operator.
abbrev pub and_then {ℓ κ} : {A : Type ℓ} {B : Type κ} → Result A → (A → Result B) → Result B
and_then (ok a) f = f a
and_then (err e) f = err e
and_then panic f = panic

abbrev pub Exec : Type 0 → Type 0 → Type 0
Exec S A = S → Result A × S

module _ {S A : Type 0} where
  unfoldable pub pure : A → Exec S A
  pure a s = (ok a, s)

  unfoldable pub raise : Error → Exec S A
  raise e s = (err e, s)

  -- A pure fallible call inside a method.
  unfoldable pub lift : Result A → Exec S A
  lift r s = (r, s)

module _ {S A B : Type 0} where
  abbrev pub continue : Result A → (A → Exec S B) → Exec S B
  continue (ok a) f s = f a s
  continue (err e) f s = (err e, s)
  continue panic f s = (panic, s)

  infixl 10 ◌>>=◌ ◌>>◌
  -- To unfold this unfolds `pure`, `raise` and `lift` too.
  unfoldable pub ◌>>=◌ : Exec S A → (A → Exec S B) → Exec S B
  unfolding pure raise lift
  ◌>>=◌ m f s = continue (m s).0 f (m s).1

  abbrev pub ◌>>◌ : Exec S A → Exec S B → Exec S B
  m >> n = m >>= λ _. n

-- What follows a call that returned.
pub bind-ok :
    {S A B : Type 0} (m : Exec S A) (f : A → Exec S B) (s s' : S) (a : A)
    → m s ≡ (ok a, s')
    → (m >>= f) s ≡ f a s'
unfolding ◌>>=◌
bind-ok m f s s' a e = ap (λ o. continue o.0 f o.1) e

pub bind-err :
    {S A B : Type 0} (m : Exec S A) (f : A → Exec S B) (s s' : S) (e : Error)
    → m s ≡ (err e, s')
    → (m >>= f) s ≡ (err e, s')
unfolding ◌>>=◌
bind-err m f s s' e q = ap (λ o. continue o.0 f o.1) q

-- Whether a call returned, failed or unwound.
pub Result-cases {ℓ} :
    {A : Type ℓ} (r : Result A)
    → ((a : A) × (r ≡ ok a)) ⊎ (((e : Error) × (r ≡ err e)) ⊎ (r ≡ panic))
Result-cases (ok a) = inl (a, refl)
Result-cases (err e) = inr (inl (e, refl))
Result-cases panic = inr (inr refl)

-- `match m.await { Ok(a) => f(a), Err(e) => g(e) }`: an error is handled and a panic is not.
unfoldable pub attempt :
    {S A B : Type 0} → Exec S A → (A → Exec S B) → (Error → Exec S B) → Exec S B
attempt m f g s = elim (m s).0 [
  | ok a ↦ f a (m s).1
  | err e ↦ g e (m s).1
  | panic ↦ (panic, (m s).1)
]
