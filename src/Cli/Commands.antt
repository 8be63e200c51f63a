-- ===== src/Cli/Commands.antt =====
-- internal/cli/cmd.go: the commands, and `run`.
use fw_id_agent.Prelude.{
  String, ◌<>◌, str_eq, true, Option, none, some, List, [], ◌∷◌, ◌++◌, if◌then◌else◌,
}
use fw_id_agent.Status.{Status}
use fw_id_agent.DbusClient.Update.{Try, got, failed}
use fw_id_agent.Cli.Parsing.{Options, Line, accepted, help, rejected, parse_command_line}
use fw_id_agent.Cli.Printing.{Format, printed, logged, Written, precede, print_status}

-- The calls of the client.
pub data Call : Type 0 where
  query re_login subscribe close : Call

-- What the calls of a client give; `subscribe` gives the updates until their channel is closed.
pub record Client (C : Type 0) : Type 0 where
  pub query : Try (Status C)
  pub re_login : Option String
  pub subscribe : Try (List (Status C))

-- What a command has called, and what it has written and returned.
pub record Ran : Type 0 where
  pub calls : List Call
  pub written : Written

abbrev pub silent : Option String → Written
silent e = record { outputs = []; error = e }

-- The ways in which `run` returns: it has run a command, or it returns `ErrHelp` or an error
-- before it has a client.
pub data Ended : Type 0 where
  finished : Ran → Ended
  helped : List String → Ended
  no_client : String → Ended

module _ {C : Type 0} (F : Format C) where
  abbrev pub print_json : Status C → Written
  print_json s = elim (F.status_json s) [
    | failed e ↦ silent (some ("error converting status to json: " <> e))
    | got text ↦ record { outputs = printed text ∷ []; error = none }
  ]

  abbrev pub show_status : Options → Try (Status C) → Written
  show_status o (failed e) = silent (some ("query failed: " <> e))
  show_status o (got s) = if o.json then print_json s else print_status F s o.verbose

  -- `getStatus`
  unfoldable pub get_status : Client C → Options → Ran
  get_status c o = record { calls = query ∷ []; written = show_status o c.query }

  -- The test of the error of `printStatus` in the loop of `monitor`.
  abbrev pub follow_by : Written → Written → Written
  follow_by first rest = elim first.error [ some e ↦ first | none ↦ precede first.outputs rest ]

  -- The loop of `monitor`.
  unfoldable pub print_updates : List (Status C) → Written
  unfolding print_status
  print_updates [] = silent none
  print_updates (u ∷ us) =
      let rest = print_updates us in
      precede (logged "Got status update:" ∷ []) (follow_by (print_status F u true) rest)

  abbrev pub show_updates : Try (List (Status C)) → Written
  show_updates (failed e) = silent (some ("error subscribing to status updates: " <> e))
  show_updates (got us) = print_updates us

  -- `monitor`
  unfoldable pub monitor : Client C → Ran
  monitor c = record { calls = subscribe ∷ []; written = show_updates c.subscribe }

  abbrev pub show_re_login : Option String → Written
  show_re_login none = silent none
  show_re_login (some e) = silent (some ("re-login request failed: " <> e))

  -- `relogin`
  unfoldable pub relogin : Client C → Ran
  relogin c = record { calls = re_login ∷ []; written = show_re_login c.re_login }

  -- `runCommand`
  unfoldable pub run_command : Client C → String → Options → Ran
  run_command c command o =
      if str_eq command "status"
      then get_status c o
      else if str_eq command "monitor"
      then monitor c
      else if str_eq command "relogin"
      then relogin c
      else record { calls = []; written = silent none }

  -- The deferred call of `Close`.
  abbrev pub closing : Ran → Ran
  closing r = record { calls = r.calls ++ (close ∷ []); written = r.written }

  abbrev pub run_with : Try (Client C) → String → Options → Ended
  run_with (failed e) command o = no_client ("could not create client: " <> e)
  run_with (got c) command o = finished (closing (run_command c command o))

  abbrev pub run_line : Try (Client C) → Line → Ended
  run_line client (rejected e) = no_client e
  run_line client (help lines) = helped lines
  run_line client (accepted command o) = run_with client command o

  -- `run` of the arguments behind the name of the program, where `NewClient` gives `client`.
  unfoldable pub run : String → List String → Options → Try (Client C) → Ended
  run version args o client = run_line client (parse_command_line version args o)
