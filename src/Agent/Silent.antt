-- ===== src/Agent/Silent.antt =====
-- The channel of errors of the agent while its loop runs.
use fw_id_agent.Prelude.{ℕ, ℤ, ◌≡◌, Bool, [], arith}
use fw_id_agent.Dbusapi.{Request}
use fw_id_agent.Krbmon.{Krb, CCacheUpdate, ConfUpdate}
use fw_id_agent.Agent.State.{Agent}
use fw_id_agent.Agent.Setters.{
  set_kerberos_tgt, set_trusted_network, set_login_state, set_last_keep_alive,
}
use fw_id_agent.Agent.Reach.{IsInvariant}
use fw_id_agent.Agent.Handlers.{
  start_client, stop_running, stop_client, handle_tnd_result, handle_login_result, adopt_ccache,
  handle_ccache_update_cases, handle_krb_conf_update, handle_dbus_request, handle_sleep_event,
  start_if_trusted,
}

module _ {K : Krb} {C : Type 0} where
  -- No error is buffered.
  abbrev pub IsSilent : Agent K C → Type 0
  IsSilent a = a.errors ≡ []

  handle_tnd_result-IsSilent :
      (r : Bool) (a : Agent K C) → IsSilent a → IsSilent (handle_tnd_result r a)
  unfolding handle_tnd_result set_trusted_network start_client stop_client stop_running
      set_login_state
  handle_tnd_result-IsSilent r a h = ground arith

  handle_login_result-IsSilent :
      (r : ℕ) (now : ℤ) (a : Agent K C) → IsSilent a → IsSilent (handle_login_result r now a)
  unfolding handle_login_result set_login_state set_last_keep_alive
  handle_login_result-IsSilent r now a h = ground arith

  adopt_ccache-IsSilent :
      (u : CCacheUpdate K) (start end : ℤ) (a : Agent K C)
      → IsSilent a
      → IsSilent (adopt_ccache u start end a)
  unfolding adopt_ccache start_if_trusted start_client set_kerberos_tgt set_login_state
  adopt_ccache-IsSilent u start end a h = ground arith

  handle_krb_conf_update-IsSilent :
      (u : ConfUpdate K) (a : Agent K C) → IsSilent a → IsSilent (handle_krb_conf_update u a)
  unfolding handle_krb_conf_update start_if_trusted start_client set_login_state
  handle_krb_conf_update-IsSilent u a h = ground arith

  handle_dbus_request-IsSilent :
      (r : Request) (a : Agent K C) → IsSilent a → IsSilent (handle_dbus_request r a)
  unfolding handle_dbus_request start_client stop_client stop_running set_login_state
  handle_dbus_request-IsSilent r a h = ground arith

  handle_sleep_event-IsSilent :
      (s : Bool) (a : Agent K C) → IsSilent a → IsSilent (handle_sleep_event s a)
  unfolding handle_sleep_event set_trusted_network stop_client stop_running set_login_state
  handle_sleep_event-IsSilent s a h = ground arith

  -- No error is buffered as long as the loop runs.
  pub IsSilent-IsInvariant : IsInvariant {K = K} {C = C} IsSilent
  IsSilent-IsInvariant = record {
    on_tnd = handle_tnd_result-IsSilent;
    on_login = λ r ch now a _ h. handle_login_result-IsSilent r now a h;
    on_ccache = λ u a _ h.
        handle_ccache_update_cases IsSilent u a h (λ s e. adopt_ccache-IsSilent u s e a h);
    on_krbcfg = λ u a _ h. handle_krb_conf_update-IsSilent u a h;
    on_dbus = handle_dbus_request-IsSilent;
    on_sleep = handle_sleep_event-IsSilent;
  }
