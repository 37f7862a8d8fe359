-- ===== src/Dex/PairCache/Keys.antt =====
-- Cache keys and the token comparison, against the pair of tokens in either order.
use sonic_edge.Base.{◌≡◌, ◌↔◌, Bool, true, Option, arith}
use sonic_edge.Core.Types.{Address}
use sonic_edge.Dex.Pair.Packing.{SamePair}
use sonic_edge.Dex.PairCache.{new_key, tokens_match}

module _ (a b c d : Address) where
  -- Two keys are equal exactly for the same factory, the same two tokens in either order, and the
  -- same kind of pool.
  pub new_key_iff :
      (f g : Address) (s t : Option Bool)
      → (new_key f a b s ≡ new_key g c d t) ↔ ((f ≡ g) × SamePair a b c d × (s ≡ t))
  unfolding new_key
  new_key_iff f g s t = (λ h. ground arith, λ h. ground arith)

  -- The comparison accepts exactly the same two tokens, in either order.
  pub tokens_match_iff : (tokens_match a b c d ≡ true) ↔ SamePair a b c d
  unfolding tokens_match
  tokens_match_iff = (λ h. ground arith, λ h. ground arith)
