-- ===== src/App/Decoding.antt =====
-- bins/sniper/src/main.rs: `test-decode` shows what the bot detects.
use sonic_edge.Base.{◌≡◌, ap, some, [], ◌∷◌, ◌++◌}
use sonic_edge.Exec.{ok, lift, bind-ok}
use sonic_edge.Core.Types.{MempoolTx, LiquidityCandidate}
use sonic_edge.Dex.Decoder.{RouterCall, decode_router_calldata}
use sonic_edge.Bot.{World, Bot, detect_liquidity_add}
use sonic_edge.Bot.Detect.{detect_liquidity_add_iff}
use sonic_edge.App.{Line, Terminal, print_line, print_decoded, print_fetched}

-- A transaction in which the bot detects an added liquidity is shown as the call that the bot read,
-- and the command returns.
pub print_fetched-detected :
    {w : World} (bot : Bot w) (tx : MempoolTx) (c : LiquidityCandidate) (t : Terminal)
    → detect_liquidity_add bot tx ≡ ok (some c)
    → (call : RouterCall) × (decode_router_calldata w.router_abi tx.input ≡ ok (some call))
      × (print_fetched w (some tx) t
          ≡ (ok tt, record t { printed = t.printed ++ Line.decoded call ∷ [] }))
unfolding print_fetched print_decoded print_line lift
print_fetched-detected {w} bot tx c t found =
    let d = (detect_liquidity_add_iff bot tx c).0 found in
    (d.call, d.decoded, bind-ok _ _ t t (some d.call) (ap (λ r. (r, t)) d.decoded))
