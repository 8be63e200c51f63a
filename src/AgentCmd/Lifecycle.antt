-- ===== src/AgentCmd/Lifecycle.antt =====
-- internal/agent/cmd.go: `run`.
use fw_id_agent.Prelude.{ℤ, String, ◌<>◌, Option, none, some, Bool, true, false, List, [], ◌∷◌}
use fw_id_agent.Config.{get_start_delay}
use fw_id_agent.Krbmon.{Krb}
use fw_id_agent.Notify.{Notifier}
use fw_id_agent.Agent.State.{Agent, new_agent, close_notifier, emit}
use fw_id_agent.Agent.Loop.{Event, Loop, running, returned, run as run_loop, stop}
use fw_id_agent.Agent.Start.{Environment, start}
use fw_id_agent.AgentCmd.{Outcome, configured}

-- How far `run` comes with a configuration: `Start` returns an error; neither an interrupt nor an
-- error of the agent has come; or it has stopped the agent and returns this error, or none.
pub data End (K : Krb) (C : Type 0) : Type 0 where
  not_started : String → Agent K C → End K C
  waits : Agent K C → End K C
  stopped : Option String → Loop K C → End K C

-- `run` returns what `getConfig` returns, or it sleeps for this duration and goes on.
pub data Command (K : Krb) (C : Type 0) : Type 0 where
  refused : Outcome C → Command K C
  served : ℤ → End K C → Command K C

module _ {K : Krb} {C : Type 0} where
  -- `Agent.Stop`, also where the main loop has returned before: the notifier and `done` are closed,
  -- and `closed` is closed already.
  abbrev pub stop_loop : Loop K C → List (Event K) → Loop K C
  stop_loop (running a) es = stop a es
  stop_loop (returned a) es = returned (emit close_notifier a)

  abbrev pub receive_error : Agent K C → End K C
  receive_error a = elim a.errors [
    | [] ↦ waits a
    | m ∷ ms ↦ stopped (some m) (returned (emit close_notifier a))
  ]

  -- The `select` of `run`, with the deferred `Stop`: whether the interrupt signal comes, or else
  -- what the agent's channel of errors holds.
  abbrev pub wait_for : Bool → Loop K C → List (Event K) → End K C
  wait_for true l es = stopped none (stop_loop l es)
  wait_for false (running a) es = waits a
  wait_for false (returned a) es = receive_error a

  abbrev pub serve : Option String × Agent K C → Bool → List (Event K) → List (Event K) → End K C
  serve (some e, a) interrupted es fs = not_started ("Agent could not start: " <> e) a
  serve (none, a) interrupted es fs = wait_for interrupted (run_loop a es) fs

  -- `run` behind `getConfig`, where the agent's main loop takes the events `es` before an interrupt,
  -- if one comes, and the events `fs` from the call of `Stop` on.
  unfoldable pub run :
      Environment C
      → Option Notifier
      → Outcome C
      → Bool
      → List (Event K)
      → List (Event K)
      → Command K C
  run env n (configured c) interrupted es fs =
      served (get_start_delay c) (serve (start env (new_agent c n)) interrupted es fs)
  run env n o interrupted es fs = refused o
