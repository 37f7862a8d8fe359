-- ===== src/App/Command.antt =====
-- bins/sniper/src/main.rs: the choice of the command.
use sonic_edge.Base.{Option, none, some}
use sonic_edge.Exec.{Exec, pure, lift, ◌>>=◌, ◌>>◌}
use sonic_edge.Core.Config.{Text}
use sonic_edge.Core.Parse.{Conversions}
use sonic_edge.Bot.{World, Bot}
use sonic_edge.Bot.Setup.{Host}
use sonic_edge.App
use sonic_edge.App.{Shell, Terminal, bot_of}

-- The defaults of the arguments are those of the parser.
pub data Commands : Type 0 where
  run : Text → Commands
  deploy_contract : Text → Commands
  test_decode : Text → Text → Commands
  replay : Text → Commands
  print_config : Text → Commands

module _ (shell : Shell) (conv : Conversions) (host : Host) (w : World) where
  -- One command; that of `run` makes the bot that then runs.
  unfoldable pub main : Commands → Exec Terminal (Option (Bot w))
  main (Commands.run path) = do bot ← lift (bot_of shell conv host w path); pure (some bot)
  main (Commands.deploy_contract path) = App.deploy_contract shell conv path >> pure none
  main (Commands.test_decode path tx) = App.test_decode shell conv host w path tx >> pure none
  main (Commands.replay file) = App.replay shell w.router_abi file >> pure none
  main (Commands.print_config path) = App.print_config shell path >> pure none
