-- ===== src/Chain/Client.antt =====
-- crates/chain/src/client.rs: the two connections to the node.
use sonic_edge.Exec.{Result, ok, and_then}
use sonic_edge.Core.Config.{Text, ChainConfig}

pub record NodeClient (P : Type 0) : Type 0 where
  pub ws : P
  pub http : P

-- A provider is that of `alloy` for an address.
unfoldable pub connect : {P : Type 0} → (Text → Result P) → ChainConfig → Result (NodeClient P)
connect provider cfg =
    and_then (provider cfg.rpc_ws)
      λ ws. and_then (provider cfg.rpc_http) λ http. ok (record { ws = ws; http = http })
