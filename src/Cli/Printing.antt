-- ===== src/Cli/Printing.antt =====
-- internal/cli/cmd.go: `printStatus`.
use fw_id_agent.Prelude.{
  ℤ, is_pos, String, ◌<>◌, Bool, Option, none, some, List, [], ◌∷◌, ◌++◌, if◌then◌else◌,
}
use fw_id_agent.Config.{Config}
use fw_id_agent.Status.TrustedNetwork
use fw_id_agent.Status.LoginState
use fw_id_agent.Status.{Status}
use fw_id_agent.DbusClient.Update.{Try, got, failed}

-- The libraries that turn a value into text: `time.Unix` with `String`, and `json.Marshal` of a
-- configuration, which may be nil, and `json.MarshalIndent` of a status.
pub record Format (C : Type 0) : Type 0 where
  pub time : ℤ → String
  pub config_json : Option (Config C) → Try String
  pub status_json : Status C → Try String

-- A line for the standard output, or for the log.
pub data Output : Type 0 where
  printed : String → Output
  logged : String → Output

-- What is written, and the error that is returned.
pub record Written : Type 0 where
  pub outputs : List Output
  pub error : Option String

abbrev pub precede : List Output → Written → Written
precede os w = record { outputs = os ++ w.outputs; error = w.error }

module _ {C : Type 0} (F : Format C) where
  -- A line with a time that is left out where it is not positive.
  abbrev pub time_line : String → String → ℤ → Output
  time_line bare padded t = printed (if is_pos t then padded <> F.time t else bare)

  abbrev pub state_lines : Status C → List Output
  state_lines s =
      printed ("Trusted Network:    " <> TrustedNetwork.to_string s.trusted_network)
      ∷ printed ("Login State:        " <> LoginState.to_string s.login_state)
      ∷ []

  abbrev pub time_lines : Status C → List Output
  time_lines s =
      time_line "Last Keep-Alive:" "Last Keep-Alive:    " s.last_keep_alive
      ∷ printed "Kerberos TGT:"
      ∷ time_line "- Start Time:" "- Start Time:       " s.kerberos_tgt.start_time
      ∷ time_line "- End Time:" "- End Time:         " s.kerberos_tgt.end_time
      ∷ []

  abbrev pub config_line : Status C → Written
  config_line s = elim (F.config_json s.config) [
    | failed e ↦ record { outputs = []; error = some e }
    | got text ↦ record { outputs = printed ("Config:             " <> text) ∷ []; error = none }
  ]

  -- `printStatus`
  unfoldable pub print_status : Status C → Bool → Written
  print_status s verbose = precede (state_lines s) (
      if verbose
      then precede (time_lines s) (config_line s)
      else record { outputs = []; error = none })
