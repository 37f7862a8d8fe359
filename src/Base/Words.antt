-- ===== src/Base/Words.antt =====
-- Machine words of the source as natural numbers below a power of two, with the operations of
-- the language's integer types: `u64::saturating_add`, wrapping addition.
use Prim.Native.Nat.{ℕ, ◌+◌, ◌-◌, ◌^◌, ◌≤◌, min}
use native.Mathlib.Omega.{arith}

abbrev pub u64_max : ℕ
u64_max = 2 ^ 64 - 1

-- `u64::saturating_add`
unfoldable pub saturating_add : ℕ → ℕ → ℕ
saturating_add a b = min (a + b) u64_max

pub saturating_add_mono : (a b c : ℕ) → a ≤ b → saturating_add a c ≤ saturating_add b c
unfolding saturating_add
saturating_add_mono a b c h = omega arith

pub saturating_add-le : (a b : ℕ) → saturating_add a b ≤ a + b
unfolding saturating_add
saturating_add-le a b = omega arith

pub le-saturating_add : (a b : ℕ) → a ≤ u64_max → a ≤ saturating_add a b
unfolding saturating_add
le-saturating_add a b h = omega arith
