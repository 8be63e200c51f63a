-- ===== src/Tracking/Displayed.antt =====
-- What the command line client shows of the agent.
use text.Mathlib.TextLemmas.{append_assoc, append-nil}
use fw_id_agent.Status.TrustedNetwork
use fw_id_agent.Status.LoginState
use fw_id_agent.Prelude.{
  ◌<>◌, sym, is_pos, Bool-cases, ℤ, String, ◌≡◌, refl, inl, inr, ap, Bool, true, false, Option,
  List, [], ◌∷◌, map, All, if◌then◌else◌,
}
use fw_id_agent.Config.{Tnd, Config}
use fw_id_agent.Status.{Status}
use fw_id_agent.Krbmon.{Krb}
use fw_id_agent.Notify.{Notifier}
use fw_id_agent.Agent.State.{Agent}
use fw_id_agent.Agent.Loop.{Event, running, run}
use fw_id_agent.Agent.Start.{Environment}
use fw_id_agent.Agent.Mirror.{Mirrors}
use fw_id_agent.Agent.Reach.{IsProper, WhileRunning}
use fw_id_agent.Agent.Histories.{Starts, run-Mirrors}
use fw_id_agent.DbusClient.Update.{got, Bus}
use fw_id_agent.DbusClient.Query.{query}
use fw_id_agent.Tracking.{Carries}
use fw_id_agent.Tracking.Query.{ConfigReadable, query-Holds}
use fw_id_agent.Tracking.Joining.{Answered}
use fw_id_agent.Tracking.Shown.{ShowsTime, Shows, agent-AllFit, Holds-Shows}
use fw_id_agent.Cli.Parsing.{initial}
use fw_id_agent.Cli.Accepting.{Setting, write, IsReadable, set_all, settings_taken}
use fw_id_agent.Cli.Printing.{
  printed, Format, Output, Written, time_line, config_line, print_status,
}
use fw_id_agent.Cli.Commands.{
  query as called_query, close, Client, Ran, finished, run as run_cli, get_status, run_command,
}

module _ {C : Type 0} (F : Format C) where
  -- A label with a time, or alone where the time is not positive.
  abbrev pub labelled : String → String → ℤ → Output
  labelled label gap t = printed (label <> (if is_pos t then gap <> F.time t else ""))

  -- The lines of the agent's state, and the line of a configuration or none.
  abbrev pub StateShown : {K : Krb} → Agent K C → Bool → Written → Type 0
  StateShown b verbose w =
      (last : List Output) × (w.outputs
        ≡ printed ("Trusted Network:    " <> TrustedNetwork.to_string b.trusted_network)
          ∷ printed ("Login State:        " <> LoginState.to_string b.login_state)
          ∷ (if verbose
              then labelled "Last Keep-Alive:" "    " b.last_keep_alive
                ∷ printed "Kerberos TGT:"
                ∷ labelled "- Start Time:" "       " b.kerberos_tgt.start_time
                ∷ labelled "- End Time:" "         " b.kerberos_tgt.end_time
                ∷ last
              else []))

  -- A time line is written as its label says, and for a time that was never set as for the agent's.
  time_line-ShowsTime :
      (label gap padded : String) (t a : ℤ)
      → padded ≡ label <> gap
      → ShowsTime t a
      → time_line F label padded t ≡ labelled label gap a
  time_line-ShowsTime label gap padded t a h (inl e) = elim (Bool-cases (is_pos a)) [
    | inl p ↦ rw (e, p, h) (ap printed (append_assoc label gap (F.time a)))
    | inr p ↦ rw (e, p) (ap printed (sym (append-nil label)))
  ]
  time_line-ShowsTime label gap padded t a h (inr (e, f)) =
      rw (e, f) (ap printed (sym (append-nil label)))

  module _ {K : Krb} (b : Agent K C) (s : Status C) (h : Shows b s) where
    print_status-Shows : (verbose : Bool) → StateShown b verbose (print_status F s verbose)
    unfolding print_status
    print_status-Shows false = ([], rw (h.network, h.login) refl)
    print_status-Shows true = (
      (config_line F s).outputs,
      rw
          (
            h.network,
            h.login,
            time_line-ShowsTime "Last Keep-Alive:" "    " "Last Keep-Alive:    " _ _ refl
                h.keep_alive,
            time_line-ShowsTime "- Start Time:" "       " "- Start Time:       " _ _ refl
                h.tgt_start,
            time_line-ShowsTime "- End Time:" "         " "- End Time:         " _ _ refl h.tgt_end,
          )
          refl,
    )

module _ (T : Tnd) (B : Bus T.Conf) (w : Carries B) (F : Format T.Conf) where
  -- `fw-id-agent-cli status`, with any options that do not ask for JSON, prints the state of the
  -- agent: its trusted network and its login state and, with "-verbose", its last keep-alive and
  -- its TGT times. It calls `Query` once and closes the client. The agent is reached by events
  -- without empty updates after a start with no error, and the configuration that was published can
  -- be read.
  pub status_displays :
      {K : Krb} (env : Environment T.Conf) (conf : Config T.Conf) (n : Option Notifier)
      (a : Agent K T.Conf)
      → Starts env conf n a
      → (es : List (Event K)) → All IsProper es
      → (b : Agent K T.Conf) → run a es ≡ running b
      → ConfigReadable T B w b.trace
      → (ps qs : List (String × B.Variant)) → Answered T B w b.trace ps qs
      → (c : Client T.Conf) → c.query ≡ query B (got (ps, qs))
      → (version : String) (ss : List Setting) → All IsReadable ss
      → (set_all ss initial).json ≡ false
      → (r : Ran) × (run_cli F version ("status" ∷ map write ss) initial (got c) ≡ finished r)
        × (r.calls ≡ called_query ∷ close ∷ [])
        × StateShown F b (set_all ss initial).verbose r.written
  unfolding run_cli run_command get_status
  status_displays env conf n a ok es proper b ran readable ps qs answers c asks version ss given
        plain =
      let held : WhileRunning Mirrors (run a es) = run-Mirrors env conf n a ok es proper in
      let mb : Mirrors b = rw ran at held in
      let (s, asked, holds) =
        query-Holds T B w b.trace (agent-AllFit b mb) readable ps qs answers.first answers.second in
      let shown =
        print_status-Shows F b s (Holds-Shows b mb s holds) (set_all ss initial).verbose in
      (
        record {
          calls = called_query ∷ close ∷ [];
          written = print_status F s (set_all ss initial).verbose;
        },
        rw (run_cli, settings_taken version ss initial given, asks, asked, plain) refl,
        refl,
        shown,
      )
