-- ===== src/Agent/Mirror.antt =====
-- The D-Bus properties show the state of the agent after every handler.
use fw_id_agent.Prelude.{ℕ, ℤ, pos, ◌≡◌, Bool, Option, none, some, arith}
use fw_id_agent.Dbusapi.Property
use fw_id_agent.Dbusapi.{Value, uint32, int64, Request}
use fw_id_agent.Krbmon.{Krb, CCacheUpdate, ConfUpdate}
use fw_id_agent.Status.LoginState
use fw_id_agent.LoginClient.State.{Client}
use fw_id_agent.Agent.State.{Agent, latest}
use fw_id_agent.Agent.Setters.{
  set_kerberos_tgt, set_trusted_network, set_login_state, set_last_keep_alive,
}
use fw_id_agent.Agent.Reach.{IsInvariant}
use fw_id_agent.Agent.Handlers.{
  start_client, stop_running, stop_client, stop_client_cases, adopt_ccache,
  handle_ccache_update_cases, handle_tnd_result, handle_login_result, handle_ccache_update,
  handle_krb_conf_update, handle_dbus_request, handle_sleep_event,
}

-- A property that was never set counts as 0, the zero value of the agent's field.
abbrev pub or_zero : Option Value → Value
or_zero none = int64 (pos 0)
or_zero (some v) = v

module _ {K : Krb} {C : Type 0} where
  pub record Mirrors (a : Agent K C) : Type 0 where
    pub network : latest Property.trusted_network a.trace ≡ some (uint32 a.trusted_network)
    pub login : latest Property.login_state a.trace ≡ some (uint32 a.login_state)
    pub keep_alive : or_zero (latest Property.last_keep_alive_at a.trace) ≡ int64 a.last_keep_alive
    pub tgt_start :
        or_zero (latest Property.kerberos_tgt_start_time a.trace) ≡ int64 a.kerberos_tgt.start_time
    pub tgt_end :
        or_zero (latest Property.kerberos_tgt_end_time a.trace) ≡ int64 a.kerberos_tgt.end_time

  pub set_trusted_network-Mirrors :
      (t : Bool) (a : Agent K C) → Mirrors a → Mirrors (set_trusted_network t a)
  unfolding set_trusted_network
  set_trusted_network-Mirrors t a m = ground arith

  pub set_login_state-Mirrors : (l : ℕ) (a : Agent K C) → Mirrors a → Mirrors (set_login_state l a)
  unfolding set_login_state
  set_login_state-Mirrors l a m = ground arith

  pub set_last_keep_alive-Mirrors :
      (t : ℤ) (a : Agent K C) → Mirrors a → Mirrors (set_last_keep_alive t a)
  unfolding set_last_keep_alive
  set_last_keep_alive-Mirrors t a m = ground arith

  pub set_kerberos_tgt-Mirrors :
      (s e : ℤ) (a : Agent K C) → Mirrors a → Mirrors (set_kerberos_tgt s e a)
  unfolding set_kerberos_tgt
  set_kerberos_tgt-Mirrors s e a m = ground arith

  start_client-Mirrors : (a : Agent K C) → Mirrors a → Mirrors (start_client a)
  unfolding start_client
  start_client-Mirrors a m = ground arith

  stop_running-Mirrors : (c : Client K C) (a : Agent K C) → Mirrors a → Mirrors (stop_running c a)
  unfolding stop_running
  stop_running-Mirrors c a m =
      let b = set_login_state LoginState.logging_out a in
      let still : Mirrors b = set_login_state-Mirrors LoginState.logging_out a m in
      set_login_state-Mirrors LoginState.logged_out _ (record {
        network = still.network;
        login = still.login;
        keep_alive = still.keep_alive;
        tgt_start = still.tgt_start;
        tgt_end = still.tgt_end;
      })

  pub stop_client-Mirrors : (a : Agent K C) → Mirrors a → Mirrors (stop_client a)
  stop_client-Mirrors a m = stop_client_cases Mirrors a (λ _. m) (λ c _. stop_running-Mirrors c a m)

  handle_tnd_result-Mirrors :
      (r : Bool) (a : Agent K C) → Mirrors a → Mirrors (handle_tnd_result r a)
  unfolding handle_tnd_result
  handle_tnd_result-Mirrors r a m =
      grind (arith, set_trusted_network-Mirrors, start_client-Mirrors, stop_client-Mirrors)

  handle_login_result-Mirrors :
      (r : ℕ) (now : ℤ) (a : Agent K C) → Mirrors a → Mirrors (handle_login_result r now a)
  unfolding handle_login_result
  handle_login_result-Mirrors r now a m =
      grind (arith, set_login_state-Mirrors, set_last_keep_alive-Mirrors)

  handle_krb_conf_update-Mirrors :
      (u : ConfUpdate K) (a : Agent K C) → Mirrors a → Mirrors (handle_krb_conf_update u a)
  unfolding handle_krb_conf_update
  handle_krb_conf_update-Mirrors u a m = grind (arith, start_client-Mirrors)

  adopt_ccache-Mirrors :
      (u : CCacheUpdate K) (start end : ℤ) (a : Agent K C)
      → Mirrors a
      → Mirrors (adopt_ccache u start end a)
  unfolding adopt_ccache
  adopt_ccache-Mirrors u start end a m =
      grind (arith, set_kerberos_tgt-Mirrors start end a m, start_client-Mirrors)

  handle_ccache_update-Mirrors :
      (u : CCacheUpdate K) (a : Agent K C) → Mirrors a → Mirrors (handle_ccache_update u a)
  handle_ccache_update-Mirrors u a m =
      handle_ccache_update_cases Mirrors u a m (λ start end. adopt_ccache-Mirrors u start end a m)

  handle_dbus_request-Mirrors :
      (r : Request) (a : Agent K C) → Mirrors a → Mirrors (handle_dbus_request r a)
  unfolding handle_dbus_request
  handle_dbus_request-Mirrors r a m = grind (arith, start_client-Mirrors, stop_client-Mirrors)

  handle_sleep_event-Mirrors :
      (s : Bool) (a : Agent K C) → Mirrors a → Mirrors (handle_sleep_event s a)
  unfolding handle_sleep_event
  handle_sleep_event-Mirrors s a m = grind (arith, set_trusted_network-Mirrors, stop_client-Mirrors)

  pub Mirrors-IsInvariant : IsInvariant {K = K} {C = C} Mirrors
  Mirrors-IsInvariant = record {
    on_tnd = handle_tnd_result-Mirrors;
    on_login = λ r ch now a _ m. handle_login_result-Mirrors r now a m;
    on_ccache = λ u a _ m. handle_ccache_update-Mirrors u a m;
    on_krbcfg = λ u a _ m. handle_krb_conf_update-Mirrors u a m;
    on_dbus = handle_dbus_request-Mirrors;
    on_sleep = handle_sleep_event-Mirrors;
  }
