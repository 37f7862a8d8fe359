-- ===== src/App.antt =====
-- bins/sniper/src/main.rs: the commands, with what each prints. What is only logged is left out,
-- and so is the parsing of the arguments.
pub mod Replay
pub mod Decoding
pub mod Running
pub mod Command
use sonic_edge.Base.{ℕ, Bool, Option, none, some, List, [], ◌∷◌, ◌++◌, if◌then◌else◌}
use sonic_edge.Exec.{Result, ok, err, panic, parse_error, and_then, Exec, pure, lift, ◌>>=◌, ◌>>◌}
use sonic_edge.Core.Types.{Address, B256, Bytes, MempoolTx}
use sonic_edge.Core.Config.{Text, text, AppConfig}
use sonic_edge.Core.Parse.{Conversions, trim_start_matches, parse_address}
use sonic_edge.Chain.Client.{connect}
use sonic_edge.Chain.Fetcher.{fetch}
use sonic_edge.Dex.Decoder.{RouterAbi, RouterCall, decode_router_calldata}
use sonic_edge.Bot.{World, Bot}
use sonic_edge.Bot.Setup
use sonic_edge.Bot.Setup.{Host}

-- `ReplayEntry`
pub record ReplayEntry : Type 0 where
  pub hash : Text
  pub input : Text

-- Files and formats: `AppConfig::load`, `read_to_string`, `Path::exists`, `hex::decode`,
-- `keccak256`, and the JSON of entries and of a configuration.
pub record Shell : Type 0 where
  pub load : Text → Result AppConfig
  pub read_to_string : Text → Result Text
  pub exists : Text → Bool
  pub hex_decode : Text → Result Bytes
  pub keccak256 : Bytes → B256
  pub entries_from_str : Text → Result (List ReplayEntry)
  pub to_string_pretty : AppConfig → Result Text

-- A line that a command prints, by its `println!`.
pub data Line : Type 0 where
  abi_text : Text → Line
  executor_address : Option Address → Line
  bytecode_hash : Option B256 → Line
  decoded : RouterCall → Line
  no_router_call transaction_not_found : Line
  replayed : Text → RouterCall → Line
  config : Text → Line

-- What was printed, the last line last, and the number of questions asked.
pub record Terminal : Type 0 where
  pub printed : List Line
  pub asked : ℕ

unfoldable pub print_line : Line → Exec Terminal (Unit {0})
print_line line t = (ok tt, record t { printed = t.printed ++ line ∷ [] })

-- `map_err` into "invalid tx hash".
abbrev or_parse_error : {A : Type 0} → Result A → Result A
or_parse_error (ok a) = ok a
or_parse_error (err e) = err parse_error
or_parse_error panic = panic

unfoldable pub query : {A : Type 0} → Exec ℕ A → Exec Terminal A
query m t = ((m t.asked).0, record t { asked = (m t.asked).1 })

-- An entry that does not decode to a call is only logged.
unfoldable pub print_call : Text → Option RouterCall → Exec Terminal (Unit {0})
print_call hash none = pure tt
print_call hash (some call) = print_line (Line.replayed hash call)

unfoldable pub print_decoded : Option RouterCall → Exec Terminal (Unit {0})
print_decoded none = print_line Line.no_router_call
print_decoded (some call) = print_line (Line.decoded call)

module _ (w : World) where
  unfoldable pub print_fetched : Option MempoolTx → Exec Terminal (Unit {0})
  unfolding print_decoded
  print_fetched none = print_line Line.transaction_not_found
  print_fetched (some tx) = do
    call ← lift (decode_router_calldata w.router_abi tx.input)
    print_decoded call

module _ (shell : Shell) where
  module _ (abi : RouterAbi) where
    unfoldable pub replay_entry : ReplayEntry → Exec Terminal (Unit {0})
    unfolding print_call
    replay_entry entry = do
      input ← lift (shell.hex_decode (trim_start_matches entry.input))
      call ← lift (decode_router_calldata abi input)
      print_call entry.hash call

    unfoldable pub replay_all : List ReplayEntry → Exec Terminal (Unit {0})
    replay_all [] = pure tt
    replay_all (entry ∷ rest) = replay_entry entry >> replay_all rest

    -- `Commands::Replay`
    unfoldable pub replay : Text → Exec Terminal (Unit {0})
    replay file = do
      content ← lift (shell.read_to_string file)
      entries ← lift (shell.entries_from_str content)
      replay_all entries

  module _ (conv : Conversions) where
    abbrev if_ok : {A : Type 0} → Result A → Option A
    if_ok (ok a) = some a
    if_ok (err e) = none
    if_ok panic = none

    unfoldable pub print_hash_of : Text → Exec Terminal (Unit {0})
    print_hash_of path = do
      raw ← lift (shell.read_to_string path)
      bytes ← lift (shell.hex_decode (trim_start_matches raw))
      print_line (Line.bytecode_hash (some (shell.keccak256 bytes)))

    unfoldable pub print_bytecode_hash : Text → Exec Terminal (Unit {0})
    unfolding print_hash_of
    print_bytecode_hash path =
        if shell.exists path then print_hash_of path else print_line (Line.bytecode_hash none)

    -- `Commands::DeployContract`
    unfoldable pub deploy_contract : Text → Exec Terminal (Unit {0})
    unfolding print_bytecode_hash
    deploy_contract path = do
      cfg ← lift (shell.load path)
      contents ← lift (shell.read_to_string (text "contracts/abi/SonicSniperExecutor.json"))
      print_line (Line.abi_text contents)
      print_line (Line.executor_address (if_ok (parse_address conv cfg.executor.executor_contract)))
      print_bytecode_hash (text "contracts/bytecode/SonicSniperExecutor.hex")

  module _ (conv : Conversions) (host : Host) (w : World) where
    -- `Commands::TestDecode`
    unfoldable pub test_decode : Text → Text → Exec Terminal (Unit {0})
    unfolding print_fetched
    test_decode path tx = do
      cfg ← lift (shell.load path)
      lift (connect host.provider cfg.chain)
      hash ← lift (or_parse_error (conv.b256_from_str tx))
      fetched ← query (fetch w.env cfg.mempool.tx_fetch_timeout_ms hash)
      print_fetched w fetched

    -- The bot that `Commands::Run` runs.
    unfoldable pub bot_of : Text → Result (Bot w)
    bot_of path = and_then (shell.load path) λ cfg. Setup.new conv host w cfg

  -- `Commands::PrintConfig`
  unfoldable pub print_config : Text → Exec Terminal (Unit {0})
  print_config path = do
    cfg ← lift (shell.load path)
    json ← lift (shell.to_string_pretty cfg)
    print_line (Line.config json)
