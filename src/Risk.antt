-- ===== src/Risk.antt =====
-- crates/risk: the decision type and the engine.
use Prim.Native.String.{String}
use sonic_edge.Base.{ℕ, Bool, true, false, List, [], ◌∷◌, ◌++◌}
use sonic_edge.Exec.{Exec, pure}
use sonic_edge.Core.Types.{Address}

pub record RiskDecision : Type 0 where
  pub pass : Bool
  pub score : ℕ
  pub reasons : List String

unfoldable pub pass : RiskDecision
pass = record { pass = true; score = 0; reasons = [] }

unfoldable pub fail : String → RiskDecision
fail reason = record { pass = false; score = 0; reasons = reason ∷ [] }

unfoldable pub add_reason : RiskDecision → String → RiskDecision
add_reason d reason = record d { reasons = d.reasons ++ reason ∷ [] }

pub record RiskConfig : Type 0 where
  pub sellability_amount_base : String
  pub max_tax_bps : ℕ
  pub erc20_call_timeout_ms : ℕ

pub record RiskContext : Type 0 where
  pub router : Address
  pub base_token : Address
  pub token : Address

-- The placeholder of crates/risk/src/engine.rs: it asks nothing and passes.
unfoldable pub assess : {S : Type 0} → RiskConfig → RiskContext → Exec S RiskDecision
assess cfg ctx = pure pass
