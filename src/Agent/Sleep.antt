-- ===== src/Agent/Sleep.antt =====
-- A sleep event logs the user out until the network is found trusted again.
use fw_id_agent.Prelude.{◌≡◌, true, false, none, List, arith, All}
use fw_id_agent.Status.TrustedNetwork
use fw_id_agent.Status.LoginState
use fw_id_agent.Krbmon.{Krb}
use fw_id_agent.Agent.State.{Agent}
use fw_id_agent.Agent.Setters.{set_kerberos_tgt, set_trusted_network, set_login_state}
use fw_id_agent.Agent.Handlers.{
  stop_running, stop_client, handle_tnd_result, adopt_ccache, handle_ccache_update_cases,
  handle_krb_conf_update, handle_dbus_request, handle_sleep_event,
}
use fw_id_agent.Agent.Loop.{
  Event, tnd_result, login_result, ccache_update, krbcfg_update, dbus_request, sleep_event,
  tnd_closed, ccache_closed, krbcfg_closed, dbus_closed, sleep_closed, login_closed, done, select,
  run,
}
use fw_id_agent.Agent.Lifecycle.{IsServed}
use fw_id_agent.Agent.Reach.{WhileRunning, run_steps}

-- Every event but a result that finds the network trusted.
abbrev pub IsUntrusting : {K : Krb} → Event K → Type 0
IsUntrusting (tnd_result r) = r ≡ false
IsUntrusting e = Unit {0}

module _ {K : Krb} {C : Type 0} where
  pub record IsDormant (a : Agent K C) : Type 0 where
    pub untrusted : TrustedNetwork.is_trusted a.trusted_network ≡ false
    pub no_client : a.client ≡ none
    pub no_results : a.login ≡ none
    pub state : a.login_state ≡ LoginState.logged_out

  select-IsDormant :
      (a : Agent K C) (e : Event K)
      → IsUntrusting e
      → IsDormant a
      → WhileRunning IsDormant (select a e)
  unfolding select
  select-IsDormant a (tnd_result r) q d =
      unfold handle_tnd_result set_trusted_network stop_client in ground arith
  select-IsDormant a (login_result ch r now) q d = ground arith
  select-IsDormant a (ccache_update u) q d =
      handle_ccache_update_cases IsDormant u a d
        (λ s e. unfold adopt_ccache set_kerberos_tgt in ground arith)
  select-IsDormant a (krbcfg_update u) q d = unfold handle_krb_conf_update in ground arith
  select-IsDormant a (dbus_request r) q d = unfold handle_dbus_request in ground arith
  select-IsDormant a (sleep_event s) q d =
      unfold handle_sleep_event set_trusted_network stop_client in ground arith
  select-IsDormant a (login_closed ch) _ d = ground arith
  select-IsDormant a tnd_closed _ h = tt
  select-IsDormant a ccache_closed _ h = tt
  select-IsDormant a krbcfg_closed _ h = tt
  select-IsDormant a dbus_closed _ h = tt
  select-IsDormant a sleep_closed _ h = tt
  select-IsDormant a done _ h = tt

  pub sleep-IsDormant : (a : Agent K C) → IsServed a → IsDormant (handle_sleep_event true a)
  unfolding handle_sleep_event set_trusted_network stop_client stop_running set_login_state
  sleep-IsDormant a v = ground arith

  -- When a served agent handles a sleep event, it counts the network as not trusted and has no
  -- client, in the state "logged out"; and this stays so under any events, updates and re-login
  -- requests included, as long as the loop runs and no result finds the network trusted.
  pub sleep_lasts :
      (a : Agent K C) (es : List (Event K))
      → IsServed a
      → All IsUntrusting es
      → WhileRunning IsDormant (run (handle_sleep_event true a) es)
  sleep_lasts a es v qs =
      run_steps IsDormant IsUntrusting select-IsDormant _ es qs (sleep-IsDormant a v)
