-- ===== src/Agent/Farewell.antt =====
-- The last notification of an agent that is stopped.
use fw_id_agent.Prelude.{
  ◌≡◌, refl, true, false, some, List, [], ◌∷◌, ◌++◌, arith, ◌==◌, if◌then◌else◌,
}
use fw_id_agent.Status.LoginState
use fw_id_agent.Dbusapi.Property
use fw_id_agent.Dbusapi.{uint32}
use fw_id_agent.Krbmon.{Krb}
use fw_id_agent.Notify.{Notifier, notify}
use fw_id_agent.LoginClient.State.{Client}
use fw_id_agent.Agent.State.{
  Agent, Effect, emit, set_property, stop_client as stopped, notification, close_notifier,
  close_closed, stop_part, dbus, ccache, krbcfg, tnd, sleep,
}
use fw_id_agent.Agent.Setters.{set_login_state}
use fw_id_agent.Agent.Handlers.{stop_client, stop_running}
use fw_id_agent.Agent.Loop.{returned, deferred, select, run, stop}
use fw_id_agent.Agent.Notices.{login_notices}

abbrev goodbye : Notifier → Effect
goodbye n = notification (record {
  replaces_id = n.notification_id;
  title = "Identity Agent Logout";
  message = "Identity Agent logged out";
  expire_timeout = 5;
})

module _ {K : Krb} {C : Type 0} (a : Agent K C) (c : Client K C) (n : Notifier)
    (running : a.client ≡ some c) (logged : a.logged_in ≡ true)
    (enabled : a.config.notifications ≡ true) (there : a.notifier ≡ some n) where
  -- What the stopping of the client does, newest first.
  abbrev farewell : List Effect
  farewell =
      set_property Property.login_state (uint32 LoginState.logged_out)
      ∷ goodbye n
      ∷ stopped c.results
      ∷ (if LoginState.logging_out == a.login_state
          then []
          else set_property Property.login_state (uint32 LoginState.logging_out) ∷ [])

  stop_client-farewell :
      (stop_client (emit close_notifier a)).trace ≡ farewell ++ (close_notifier ∷ a.trace)
  unfolding stop_client stop_running set_login_state notify
  stop_client-farewell = ground arith

  -- When an agent that has a client, counts as logged in and shows notifications is stopped, it
  -- makes exactly one login notification, that of the logout, and only after the notifier is closed.
  pub late_logout :
      (b : Agent K C) × (later : List Effect) × (stop a [] ≡ returned b)
      × (b.trace ≡ later ++ (close_notifier ∷ a.trace))
      × (login_notices later ≡ false ∷ [])
  unfolding stop select run
  late_logout = (
    deferred (stop_client (emit close_notifier a)),
    close_closed
        ∷ stop_part dbus
        ∷ stop_part ccache
        ∷ stop_part krbcfg
        ∷ stop_part tnd
        ∷ stop_part sleep
        ∷ farewell,
    refl,
    rw stop_client-farewell refl,
    ground arith,
  )
