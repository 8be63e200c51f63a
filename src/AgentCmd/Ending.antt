-- ===== src/AgentCmd/Ending.antt =====
-- How the agent's process ends.
use fw_id_agent.Prelude.{
  String, ◌≡◌, refl, ◌∙◌, Bool, true, false, Option, none, some, List, [], ◌∷◌, ◌++◌, All, arith,
}
use fw_id_agent.Config.{Config, get_start_delay}
use fw_id_agent.Krbmon.{Krb}
use fw_id_agent.Notify.{Notifier}
use fw_id_agent.Agent.State.{
  Agent, emit, new_agent, close_notifier, close_closed, stop_part, dbus, ccache, krbcfg, tnd, sleep,
}
use fw_id_agent.Agent.Loop.{Event, running, returned, deferred, fail, run as run_loop}
use fw_id_agent.Agent.Setters.{set_trusted_network, set_login_state}
use fw_id_agent.Agent.Start.{Environment, start_ok, status_set, published_by, init_tnd}
use fw_id_agent.Agent.Mirror.{Mirrors}
use fw_id_agent.Agent.Lifecycle.{IsServed}
use fw_id_agent.Agent.Reach.{IsProper, WhileRunning, run_inv}
use fw_id_agent.Agent.Silent.{IsSilent, IsSilent-IsInvariant}
use fw_id_agent.Agent.Histories.{Starts, run-IsServed, run-Mirrors}
use fw_id_agent.Agent.Shutdown.{
  IsValue, IsStopped, run_values, run-append, failure, select-failure, stop_ends,
}
use fw_id_agent.AgentCmd.{configured}
use fw_id_agent.AgentCmd.Lifecycle.{End, waits, stopped, served, wait_for, run}

module _ {K : Krb} {C : Type 0} (env : Environment C) (n : Option Notifier) (conf : Config C)
    (a : Agent K C) (ok : Starts env conf n a) where
  first-IsSilent : IsSilent {K = K} (status_set (new_agent conf n))
  unfolding set_trusted_network set_login_state init_tnd
  first-IsSilent = ground arith

  published_by-IsSilent : (c : Agent K C) → IsSilent c → IsSilent (published_by env c)
  published_by-IsSilent c h = ground arith

  start-IsSilent : IsSilent a
  start-IsSilent = rw (start_ok env _ a ok) (published_by-IsSilent _ first-IsSilent)

  -- The agent that `run` stops after an error: the client is as it was, the five components are
  -- stopped, and the notifier is closed last.
  pub record IsAbandoned (b d : Agent K C) : Type 0 where
    pub same_client : d.client ≡ b.client
    pub components :
        d.trace
        ≡ close_notifier
          ∷ close_closed
          ∷ stop_part dbus
          ∷ stop_part ccache
          ∷ stop_part krbcfg
          ∷ stop_part tnd
          ∷ stop_part sleep
          ∷ b.trace

  -- `run` has slept and then comes so far.
  abbrev pub Comes : Bool → List (Event K) → List (Event K) → End K C → Type 0
  Comes interrupted es fs end =
      run env n (configured conf) interrupted es fs ≡ served (get_start_delay conf) end

  comes :
      (interrupted : Bool) (es fs : List (Event K))
      → Comes interrupted es fs (wait_for interrupted (run_loop a es) fs)
  unfolding run
  comes interrupted es fs = rw (run, ok) refl

  run_interrupted :
      (b : Agent K C) (es fs : List (Event K))
      → run_loop a es ≡ running b
      → IsServed b
      → Mirrors b
      → All IsProper fs
      → All IsValue fs
      → (d : Agent K C) × Comes true es fs (stopped none (returned d)) × IsStopped d
  run_interrupted b es fs ran v m proper values =
      let (d, ends, gone) = stop_ends b fs v m proper values in
      (d, comes true es fs ∙ rw (ran, ends) refl, gone)

  run_failed :
      (b : Agent K C) (es : List (Event K)) (e : Event K) (m : String)
      → run_loop a es ≡ running b
      → IsSilent b
      → failure e ≡ some m
      → (d : Agent K C) × Comes false (es ++ (e ∷ [])) [] (stopped (some m) (returned d))
        × IsAbandoned b d
  unfolding run_loop
  run_failed b es e m ran silent fails =
      let failed : run_loop a (es ++ (e ∷ [])) ≡ fail m b =
        run-append a es (e ∷ []) ∙ rw (ran, select-failure b e m fails) refl in
      (
        emit close_notifier (deferred (record b { errors = b.errors ++ (m ∷ []) })),
        comes false (es ++ (e ∷ [])) [] ∙ rw (failed, silent) refl,
        record { same_client = refl; components = refl },
      )

  -- Once the agent has started with no error and its main loop has taken any values in which no
  -- update is empty: an interrupt ends `run` with no error, whatever such values the loop takes
  -- until it stops, and the agent is stopped; when instead the channel of another component is
  -- closed, `run` ends with its error and the five components are stopped, but the client of the
  -- agent is left as it is; and with neither of them `run` waits.
  pub run_ends :
      (es fs : List (Event K)) (e : Event K) (m : String)
      → All IsProper es
      → All IsValue es
      → All IsProper fs
      → All IsValue fs
      → failure e ≡ some m
      → (b c d : Agent K C) × (run_loop a es ≡ running b)
        × Comes true es fs (stopped none (returned c))
        × IsStopped c
        × Comes false (es ++ (e ∷ [])) [] (stopped (some m) (returned d))
        × IsAbandoned b d
        × Comes false es [] (waits b)
  run_ends es fs e m proper values properly further fails =
      let (b, ran) = run_values a es values in
      let served : WhileRunning IsServed (run_loop a es) = run-IsServed env conf n a ok es proper in
      let mirrors : WhileRunning Mirrors (run_loop a es) = run-Mirrors env conf n a ok es proper in
      let silent : WhileRunning IsSilent (run_loop a es) =
        run_inv IsSilent-IsInvariant a es proper start-IsSilent in
      let (c, ends, gone) =
        run_interrupted b es fs ran (rw ran at served) (rw ran at mirrors) properly further in
      let (d, breaks, left) = run_failed b es e m ran (rw ran at silent) fails in
      (b, c, d, ran, ends, gone, breaks, left, comes false es [] ∙ rw ran refl)
