-- ===== src/Tests/CommandLine.antt =====
-- The command line client at concrete arguments, with what the agent of the other tests has set.
use fw_id_agent.Prelude.{
  String, ◌≡◌, refl, Bool, true, false, Option, none, some, List, [], ◌∷◌, All,
}
use fw_id_agent.Flags.{parse, parse_from, parse_bool}
use fw_id_agent.Config.{Config}
use fw_id_agent.Status.{new}
use fw_id_agent.DbusClient.Update.{Try, got, failed, set_config, decode}
use fw_id_agent.DbusClient.Query.{query}
use fw_id_agent.Tracking.Query.{ConfigReadable}
use fw_id_agent.Tracking.Displayed.{StateShown, status_displays}
use fw_id_agent.Cli.Parsing.{initial, accepted, select_command, parse_command_line}
use fw_id_agent.Cli.Printing.{Format}
use fw_id_agent.Cli.Commands.{
  Call, query as called_query, close, Client, Ran, finished, run, run_command, relogin,
}
use fw_id_agent.Cli.Accepting.{
  Setting, verbose, json, one, two, alone, given, IsReadable, IsIdle, IsCommand, settings_taken,
  parse_command_line-IsCommand,
}
use fw_id_agent.Tests.Data.{tnd, settings, environment, notifier, started, started-Starts}
use fw_id_agent.Tests.Agent.{execute}
use fw_id_agent.Tests.Bus.{bus}
use fw_id_agent.Tests.Tracking.{carries}
use fw_id_agent.Tests.Joining.{arrival, trusting, arrival-running, answer, answered}

abbrev wanted : List Setting
wanted = alone two json ∷ alone one verbose ∷ given one json "F" false ∷ []

wanted-IsReadable : All IsReadable wanted
unfolding parse_bool
wanted-IsReadable = (tt, (tt, (refl, tt)))

settings_taken_example :
    parse_command_line "1.0" ("status" ∷ "--json" ∷ "-verbose" ∷ "-json=F" ∷ []) initial
    ≡ accepted "status" (record { verbose = true; json = false })
settings_taken_example = settings_taken "1.0" wanted initial wanted-IsReadable

version_off-IsIdle : IsIdle "-version=false"
unfolding parse parse_from parse_bool
version_off-IsIdle = refl

relogin-accepted :
    parse_command_line "1.0" ("--" ∷ "relogin" ∷ []) initial ≡ accepted "relogin" initial
unfolding parse_command_line select_command parse parse_from
relogin-accepted = refl

parse_command_line-IsCommand_example : IsCommand initial "relogin" initial
parse_command_line-IsCommand_example =
    parse_command_line-IsCommand "1.0" ("--" ∷ "relogin" ∷ []) initial initial "relogin"
      relogin-accepted

abbrev config_text : Option (Config Bool) → Try String
config_text none = failed "no configuration"
config_text (some c) = got "{}"

abbrev pub format : Format Bool
format = record { time = λ t. "time"; config_json = config_text; status_json = λ s. got "{}" }

abbrev refusing : Client Bool
refusing = record { query = got new; re_login = some "aborted"; subscribe = failed "closed" }

abbrev refused : Ran
refused = record {
  calls = Call.re_login ∷ close ∷ [];
  written = record { outputs = []; error = some "re-login request failed: aborted" };
}

relogin-refused : run format "1.0" ("--" ∷ "relogin" ∷ []) initial (got refusing) ≡ finished refused
unfolding run run_command relogin parse_command_line select_command parse parse_from
relogin-refused = refl

abbrev asking : Client Bool
asking = record {
  query = query bus (got (answer trusting.trace, answer trusting.trace));
  re_login = none;
  subscribe = failed "closed";
}

trusting-readable : ConfigReadable tnd bus carries trusting.trace
unfolding started execute decode
trusting-readable = (set_config (some settings), refl)

status_displays_example :
    (r : Ran) × (run format "1.0"
        ("status" ∷ "--json" ∷ "-verbose" ∷ "-json=F" ∷ [])
        initial
        (got asking)
      ≡ finished r)
    × (r.calls ≡ called_query ∷ close ∷ [])
    × StateShown format trusting true r.written
status_displays_example =
    status_displays tnd bus carries format environment settings notifier started started-Starts
      arrival (tt, tt) trusting arrival-running trusting-readable (answer trusting.trace)
      (answer trusting.trace) (answered trusting.trace) asking refl "1.0" wanted wanted-IsReadable
      refl
