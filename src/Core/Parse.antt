-- ===== src/Core/Parse.antt =====
-- crates/core/src/utils.rs: parsing of addresses, amounts and hashes. The conversions themselves
-- are those of `alloy`.
use sonic_edge.Base.{
  ℕ, Bool, true, false, Option, none, some, [], ◌∷◌, ◌==◌, ◌&&◌, ◌||◌, if◌then◌else◌,
}
use sonic_edge.Exec.{Result}
use sonic_edge.Core.Types.{Address, B256, U256}
use sonic_edge.Core.Config.{Text}

-- `Address::from_str`, `U256::from_str_radix` and `B256::from_str`.
pub record Conversions : Type 0 where
  pub address_from_str : Text → Result Address
  pub u256_from_str_radix : Text → ℕ → Result U256
  pub b256_from_str : Text → Result B256

-- The characters `0` and `x` in front.
abbrev is_prefix : ℕ → ℕ → Bool
is_prefix a b = a == 48 && b == 120

abbrev pub strip_prefix : Text → Option Text
strip_prefix [] = none
strip_prefix (a ∷ []) = none
strip_prefix (a ∷ b ∷ rest) = if is_prefix a b then some rest else none

-- `trim_start_matches` strips the prefix as often as it is there.
unfoldable pub trim_start_matches : Text → Text
trim_start_matches [] = []
trim_start_matches (a ∷ []) = a ∷ []
trim_start_matches (a ∷ b ∷ rest) =
    let trimmed = trim_start_matches rest in if is_prefix a b then trimmed else a ∷ b ∷ rest

module _ (conv : Conversions) where
  unfoldable pub parse_address : Text → Result Address
  parse_address s = conv.address_from_str s

  unfoldable pub parse_u256_decimal : Text → Result U256
  parse_u256_decimal s = elim (strip_prefix s) [
    | some stripped ↦ conv.u256_from_str_radix stripped 16
    | none ↦ conv.u256_from_str_radix s 10
  ]

  unfoldable pub parse_b256 : Text → Result B256
  parse_b256 s = conv.b256_from_str (trim_start_matches s)

-- `str::contains`
unfoldable pub starts_with : Text → Text → Bool
starts_with [] text = true
starts_with (p ∷ pattern) [] = false
starts_with (p ∷ pattern) (c ∷ text) = p == c && starts_with pattern text

unfoldable pub contains_text : Text → Text → Bool
unfolding starts_with
contains_text [] pattern = starts_with pattern []
contains_text (c ∷ text) pattern = starts_with pattern (c ∷ text) || contains_text text pattern
