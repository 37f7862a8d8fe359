-- ===== src/Tests/Apps.antt =====
-- The commands at concrete inputs.
use sonic_edge.Base.{
  ◌≡◌, refl, ap, false, some, [], ◌∷◌, arith, map, All, length, bytes_eq, contains, lookup,
  ℕ_discrete,
}
use sonic_edge.Exec.{Result, ok, err, parse_error, continue, pure, ◌>>=◌}
use sonic_edge.Core.Types.{Bytes}
use sonic_edge.Core.Config.{Text, text}
use sonic_edge.Core.Parse.{trim_start_matches}
use sonic_edge.Executor.Nonce.{count_from}
use sonic_edge.Dex.Decoder.{RouterCall, v2_of_call, decode_router_calldata}
use sonic_edge.Bot.{detect_liquidity_add}
use sonic_edge.Bot.Ledger.{IsPurchase}
use sonic_edge.Chain.Fetcher.{map_tx}
use sonic_edge.Bot.Failures.{received}
use sonic_edge.App.{Shell, ReplayEntry, Line, Terminal, replay_all, print_fetched, bot_of}
use sonic_edge.App.Command.{Commands, main}
use sonic_edge.App.Replay.{with_lines, lines_of, replay_all-prefix}
use sonic_edge.App.Decoding.{print_fetched-detected}
use sonic_edge.App.Running.{bot_of-sends}
use sonic_edge.Tests.Codecs.{a_router_abi, calldata}
use sonic_edge.Tests.Outside.{a_world, an_add, a_tx}
use sonic_edge.Tests.Trading.{a_bot}
use sonic_edge.Tests.Chains.{queues}
use sonic_edge.Tests.Setups.{conversions, a_host, a_cfg, new_run}
use sonic_edge.Tests.Systems.{a_start, launched, bought, reached_bought, ends}

-- A text of bytes is those bytes, and the empty text is none.
abbrev bytes_of : Text → Result Bytes
bytes_of [] = err parse_error
bytes_of (c ∷ cs) = ok (c ∷ cs)

abbrev a_shell : Shell
a_shell = record {
  load = λ path. ok a_cfg;
  read_to_string = λ path. ok path;
  exists = λ path. false;
  hex_decode = bytes_of;
  keccak256 = λ bytes. length bytes;
  entries_from_str = λ content. ok [];
  to_string_pretty = λ cfg. ok [];
}

loaded_run : bot_of a_shell conversions a_host a_world (text "config") ≡ ok a_bot
unfolding bot_of
loaded_run = new_run

bot_of-sends_example :
    All (IsPurchase a_bot) bought.bot.sent
    × (map (λ tx. tx.nonce) bought.bot.sent ≡ map some (count_from (length bought.bot.sent) 0))
bot_of-sends_example =
    bot_of-sends a_shell conversions a_host queues queues (text "config") a_cfg a_bot a_start bought
      refl loaded_run launched reached_bought refl (rw ends.3 (omega arith))

abbrev blank : Terminal
blank = record { printed = []; asked = 0 }

-- A call, a transfer of nothing, and an entry that is no bytes.
abbrev an_entry : ReplayEntry
an_entry = record { hash = text "first"; input = calldata an_add }

abbrev no_call : ReplayEntry
no_call = record { hash = text "second"; input = 9 ∷ [] }

abbrev no_bytes : ReplayEntry
no_bytes = record { hash = text "third"; input = [] }

replay_all-prefix_example :
    (replay_all a_shell a_router_abi (an_entry ∷ no_call ∷ []) blank
      ≡ (ok tt, with_lines blank (lines_of a_shell a_router_abi (an_entry ∷ no_call ∷ []))))
    × (replay_all a_shell a_router_abi (an_entry ∷ no_call ∷ no_bytes ∷ an_entry ∷ []) blank ≡ (
      err parse_error,
      with_lines blank (lines_of a_shell a_router_abi (an_entry ∷ no_call ∷ [])),
    ))
unfolding trim_start_matches decode_router_calldata bytes_eq
replay_all-prefix_example =
    replay_all-prefix a_shell a_router_abi (an_entry ∷ no_call ∷ []) (an_entry ∷ []) no_bytes
      parse_error blank ((_, refl), ((_, refl), tt)) refl

shown_lines :
    lines_of a_shell a_router_abi (an_entry ∷ no_call ∷ [])
    ≡ Line.replayed (text "first") (RouterCall.add_liquidity (v2_of_call an_add)) ∷ []
unfolding lines_of trim_start_matches decode_router_calldata bytes_eq
shown_lines = refl

print_fetched-detected_example :
    (call : RouterCall) × (decode_router_calldata a_router_abi (calldata an_add) ≡ ok (some call))
    × (print_fetched a_world (some (received a_bot (a_tx (calldata an_add)))) blank
        ≡ (ok tt, record blank { printed = Line.decoded call ∷ [] }))
unfolding detect_liquidity_add decode_router_calldata bytes_eq contains v2_of_call map_tx lookup
    ℕ_discrete
print_fetched-detected_example =
    print_fetched-detected a_bot (received a_bot (a_tx (calldata an_add))) _ blank refl

-- The bot of the `run` command is that of its configuration, and nothing is printed.
command_run :
    main a_shell conversions a_host a_world (Commands.run (text "config")) blank
    ≡ (ok (some a_bot), blank)
unfolding main ◌>>=◌
command_run = ap (λ r. continue r (λ bot. pure (some bot)) blank) loaded_run
