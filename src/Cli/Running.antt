-- ===== src/Cli/Running.antt =====
-- What the commands call, write and return.
use fw_id_agent.Prelude.{
  String, ◌<>◌, ◌≡◌, ◌≢◌, refl, sym, ap, ◌∙◌, inl, inr, true, none, some, List, [], ◌∷◌, ◌++◌, All,
  arith,
}
use mathlib.Core.List.{append-nil}
use fw_id_agent.Status.{Status}
use fw_id_agent.DbusClient.Update.{Try, got, failed}
use fw_id_agent.Cli.Parsing.{Options, Line, accepted, rejected, help, parse_command_line}
use fw_id_agent.Cli.Accepting.{IsCommand, parse_command_line-IsCommand}
use fw_id_agent.Cli.Printing.{
  Format, Output, printed, logged, precede, state_lines, time_lines, config_line, print_status,
}
use fw_id_agent.Cli.Commands.{
  Call, query, re_login, subscribe, close, Client, Ran, finished, print_updates, get_status,
  monitor, relogin, run_command, run_with, run_line, run,
}

module _ {C : Type 0} (F : Format C) where
  -- The call that a command makes.
  abbrev OneCall : Ran → Type 0
  OneCall r = (k : Call) × (k ≢ close) × (r.calls ≡ k ∷ [])

  run_command-OneCall :
      (c : Client C) (command : String) (o p : Options)
      → IsCommand o command p
      → OneCall (run_command F c command p)
  unfolding run_command get_status monitor relogin
  run_command-OneCall c command o p (inl e) = rw e (query, ground arith, refl)
  run_command-OneCall c command o p (inr (inl e, same)) = rw e (subscribe, ground arith, refl)
  run_command-OneCall c command o p (inr (inr e, same)) = rw e (re_login, ground arith, refl)

  run_with-calls :
      (client : Try (Client C)) (command : String) (o p : Options) (r : Ran)
      → IsCommand o command p
      → run_with F client command p ≡ finished r
      → (k : Call) × (k ≢ close) × (r.calls ≡ k ∷ close ∷ [])
  run_with-calls (failed e) command o p r h e2 = ground arith
  run_with-calls (got c) command o p r h e =
      let (k, other, called) = run_command-OneCall c command o p h in
      (k, other, ground (arith, called))

  -- A command of an accepted command line makes one call, and then closes the client.
  pub run-calls :
      (version : String) (args : List String) (o : Options) (client : Try (Client C)) (r : Ran)
      → run F version args o client ≡ finished r
      → (k : Call) × (k ≢ close) × (r.calls ≡ k ∷ close ∷ [])
  unfolding run
  run-calls version args o client r h = by_line (parse_command_line version args o) refl h
    where
      by_line :
          (l : Line)
          → parse_command_line version args o ≡ l
          → run_line F client l ≡ finished r
          → (k : Call) × (k ≢ close) × (r.calls ≡ k ∷ close ∷ [])
      by_line (rejected m) parsed e = ground arith
      by_line (help lines) parsed e = ground arith
      by_line (accepted command p) parsed e =
          run_with-calls client command o p r
            (parse_command_line-IsCommand version args o p command parsed) e

  -- The lines of a status whose configuration is written as `text`.
  abbrev block : Status C → String → List Output
  block s text =
      logged "Got status update:"
      ∷ (state_lines F s ++ (time_lines F s ++ (printed ("Config:             " <> text) ∷ [])))

  -- The configuration of a status can be written.
  abbrev IsWritable : Status C → Type 0
  IsWritable s = (text : String) × (F.config_json s.config ≡ got text)

  abbrev blocks : (us : List (Status C)) → All IsWritable us → List Output
  blocks [] h = []
  blocks (u ∷ us) ((text, e), h) = block u text ++ blocks us h

  print_status-got :
      (s : Status C) (text : String)
      → F.config_json s.config ≡ got text
      → print_status F s true ≡ record {
        outputs =
            state_lines F s ++ (time_lines F s ++ (printed ("Config:             " <> text) ∷ []));
        error = none;
      }
  unfolding print_status
  print_status-got s text e = rw (print_status, config_line, e) refl

  print_status-failed :
      (s : Status C) (m : String)
      → F.config_json s.config ≡ failed m
      → print_status F s true
        ≡ record { outputs = state_lines F s ++ time_lines F s; error = some m }
  unfolding print_status
  print_status-failed s m e = rw (print_status, config_line, e) refl

  print_updates-append :
      (us rest : List (Status C)) (h : All IsWritable us)
      → print_updates F (us ++ rest) ≡ precede (blocks us h) (print_updates F rest)
  unfolding print_updates
  print_updates-append [] rest h = refl
  print_updates-append (u ∷ us) rest ((text, e), h) =
      rw (print_status-got u text e, print_updates-append us rest h) refl

  print_updates-end :
      (us : List (Status C)) (h : All IsWritable us)
      → print_updates F us ≡ record { outputs = blocks us h; error = none }
  unfolding print_updates
  print_updates-end us h =
      ap (λ l. print_updates F l) (sym (append-nil us))
      ∙ (print_updates-append us [] h
          ∙ ap (λ l. record { outputs = l; error = none }) (append-nil (blocks us h)))

  -- The updates are printed in order, each with all its lines, up to the first whose configuration
  -- cannot be written: of that one all lines but the configuration are printed, and its error is
  -- returned, whatever follows.
  print_updates_lem :
      (us rest : List (Status C)) (h : All IsWritable us) (u : Status C) (e : String)
      → F.config_json u.config ≡ failed e
      → (print_updates F us ≡ record { outputs = blocks us h; error = none })
        × (print_updates F (us ++ (u ∷ rest)) ≡ record {
          outputs =
              blocks us h ++ (logged "Got status update:" ∷ (state_lines F u ++ time_lines F u));
          error = some e;
        })
  unfolding print_updates print_status
  print_updates_lem us rest h u e failing = (
    print_updates-end us h,
    print_updates-append us (u ∷ rest) h ∙ rw (print_updates, print_status-failed u e failing) refl,
  )
