-- ===== src/Tracking/Command.antt =====
-- The command relogin of the command line client, from the arguments to the agent's main loop.
use fw_id_agent.Prelude.{
  String, ◌<>◌, ◌≡◌, ◌⊎◌, inl, inr, refl, ◌∙◌, ap, Bool, true, false, Option, none, some, List, [],
  ◌∷◌, Option-cases,
}
use fw_id_agent.Krbmon.{Krb}
use fw_id_agent.Config.{Config}
use fw_id_agent.Notify.{Notifier}
use fw_id_agent.Status.TrustedNetwork
use fw_id_agent.LoginClient.State.{Client as LoginClient}
use fw_id_agent.Dbusapi.{Request, close as closed}
use fw_id_agent.Dbusapi.Service.{MethodResult, succeeded, method_error}
use fw_id_agent.Flags.{parse, parse_from}
use fw_id_agent.DbusClient.Update.{got}
use fw_id_agent.DbusClient.Calls.{Caller, re_login as call_re_login}
use fw_id_agent.Agent.State.{Agent, Effect, reply, emit}
use fw_id_agent.Agent.Handlers.{handle_dbus_request}
use fw_id_agent.Agent.Lifecycle.{is_ready, IsServed}
use fw_id_agent.Agent.Start.{Environment}
use fw_id_agent.Agent.Histories.{Starts, run-IsServed}
use fw_id_agent.Agent.Relogin.{Replaces, relogin_idle, relogin_replaces}
use fw_id_agent.Agent.Loop.{Loop}
use fw_id_agent.Agent.Calls.{asked, Calls, answered, Handles, Answer, logged_in_again}
use fw_id_agent.Agent.Calls.Answers.{replied, call_answered}
use fw_id_agent.Cli.Parsing.{initial, parse_command_line, select_command, accepted}
use fw_id_agent.Cli.Printing.{Format}
use fw_id_agent.Cli.Commands.{
  re_login, close, Client, Ran, finished, run as run_cli, run_command, relogin,
}

parse-relogin :
    (version : String)
    → parse_command_line version ("relogin" ∷ []) initial ≡ accepted "relogin" initial
unfolding parse_command_line select_command parse parse_from
parse-relogin version = refl

module _ {K : Krb} {D : Type 0} where
  -- Behind some events the agent has handled the request in a trusted network: it has replaced its
  -- client or, having none and missing a ccache or a Kerberos configuration, only completed the request.
  abbrev pub LoggedInAgain : Agent K D → Type 0
  LoggedInAgain first =
      (a : Agent K D) × (r : Request) × Handles first a r
      × (TrustedNetwork.is_trusted a.trusted_network ≡ true)
      × (((c : LoginClient K D) × (a.client ≡ some c) × Replaces a c (handle_dbus_request asked a))
          ⊎ ((a.client ≡ none)
              × (is_ready a ≡ false)
              × (handle_dbus_request asked a ≡ emit (reply r) a)))

  closed_reply :
      (a : Agent K D) (r : Request) (before : List Effect)
      → handle_dbus_request asked a ≡ emit (reply (closed asked)) a
      → (handle_dbus_request asked a).trace ≡ reply r ∷ before
      → handle_dbus_request asked a ≡ emit (reply r) a
  closed_reply a r before h e =
      let same : closed asked ≡ r = ap replied (rw h at e) in h ∙ ap (λ q. emit (reply q) a) same

  Answer-LoggedInAgain :
      (env : Environment D) (conf : Config D) (n : Option Notifier) (first : Agent K D) (s : Bool)
      → Starts env conf n first
      → Answer first succeeded s
      → LoggedInAgain first
  Answer-LoggedInAgain env conf n first s ok (logged_in_again {a = a} r h t made) =
      let kept = run-IsServed env conf n first ok h.0.0 h.0.1 in
      let v : IsServed a = rw h.0.2 at kept in
      elim (Option-cases a.client) [
        | inl e ↦
            let (idle, done) = relogin_idle a asked v t e refl in
            (a, r, h, t, inr (e, idle, closed_reply a r h.1.0 done h.1.1))
        | inr (c, e) ↦ (a, r, h, t, inl (c, e, relogin_replaces a c asked v e refl))
      ]

module _ {C : Type 0} (F : Format C) where
  -- When its call of the method has reached an agent that has started with no error, and has returned,
  -- however the agent, the service and the call have taken turns, `fw-id-agent-cli relogin` has made
  -- the one call, closes the client, and prints nothing. If it ends with no error, the agent has
  -- handled the request in a trusted network: if it had a client, a new one with the same ccache and
  -- Kerberos configuration has taken its place, the agent is logged out, and nothing comes from the old
  -- client any more; if it had none, a ccache or a Kerberos configuration was missing, and it has only
  -- completed the request. Else the error tells that of the method: the agent has handled the request
  -- in no trusted network, by nothing but completing it, or the service is stopped.
  pub relogin_ends :
      {K : Krb} {D : Type 0} (env : Environment D) (conf : Config D) (n : Option Notifier)
      {first : Agent K D} {l : Loop K D} {m : MethodResult} {s : Bool}
      → Starts env conf n first
      → Calls first l (answered m) s
      → (w : Caller) → w.call_error ≡ none
      → (c : Client C) → c.re_login ≡ call_re_login w m
      → (version : String)
      → (r : Ran) × (run_cli F version ("relogin" ∷ []) initial (got c) ≡ finished r)
        × (r.calls ≡ re_login ∷ close ∷ [])
        × (r.written.outputs ≡ [])
        × (((r.written.error ≡ none) × (m ≡ succeeded) × LoggedInAgain first)
            ⊎ ((name : String) × (message : String) × (r.written.error
                  ≡ some ("re-login request failed: " <> w.error_text name message))
                × Answer first (method_error name message) s))
  unfolding run_cli run_command relogin call_re_login
  relogin_ends env conf n {m = succeeded} ok k w up c asks version = (
    _,
    rw (run_cli, parse-relogin version, asks, up) refl,
    refl,
    refl,
    inl (refl, refl, Answer-LoggedInAgain env conf n _ _ ok (call_answered k)),
  )
  relogin_ends env conf n {m = method_error name message} ok k w up c asks version = (
    _,
    rw (run_cli, parse-relogin version, asks, up) refl,
    refl,
    refl,
    inr (name, message, refl, call_answered k),
  )
