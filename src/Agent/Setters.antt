-- ===== src/Agent/Setters.antt =====
-- internal/agent/agent.go: the setters of the agent's status, with the handlers of a change.
use fw_id_agent.Prelude.{
  ℕ, ℤ, ◌==ℤ◌, String, Bool, true, false, ◌&&◌, not, List, [], ◌∷◌, ◌==◌, if◌then◌else◌,
}
use fw_id_agent.Status.TrustedNetwork
use fw_id_agent.Status.LoginState
use fw_id_agent.Dbusapi.Property
use fw_id_agent.Dbusapi.{uint32, int64}
use fw_id_agent.Krbmon.{Krb}
use fw_id_agent.Notify.{Notification, notify}
use fw_id_agent.Agent.State.{Agent, set_property, notification, emit}

module _ {K : Krb} {C : Type 0} where
  emit_all : List Notification → Agent K C → Agent K C
  emit_all [] a = a
  emit_all (n ∷ ns) a = emit_all ns (emit (notification n) a)

  -- `a.notifier.Notify(title, message)`
  notify_user : String → String → Agent K C → Agent K C
  unfolding notify emit_all
  notify_user title message a = emit_all (notify a.notifier title message) a

  -- `notifyTND`
  unfoldable pub notify_tnd : Agent K C → Agent K C
  unfolding notify_user
  notify_tnd a =
      if not a.config.notifications
      then a
      else if not (TrustedNetwork.is_trusted a.trusted_network)
      then notify_user "No Trusted Network" "No trusted network detected" a
      else notify_user "Trusted Network" "Trusted network detected" a

  -- `notifyLogin`
  unfoldable pub notify_login : Agent K C → Agent K C
  unfolding notify_user
  notify_login a =
      if not a.config.notifications
      then a
      else if not a.logged_in
      then notify_user "Identity Agent Logout" "Identity Agent logged out" a
      else notify_user "Identity Agent Login" "Identity Agent logged in successfully" a

  -- `handleKerberosTGTChange`
  unfoldable pub handle_kerberos_tgt_change : Agent K C → Agent K C
  handle_kerberos_tgt_change a =
      emit (set_property Property.kerberos_tgt_end_time (int64 a.kerberos_tgt.end_time))
        (emit (set_property Property.kerberos_tgt_start_time (int64 a.kerberos_tgt.start_time)) a)

  -- `handleTrustedNetworkChange`
  unfoldable pub handle_trusted_network_change : Agent K C → Agent K C
  unfolding notify_tnd
  handle_trusted_network_change a =
      emit (set_property Property.trusted_network (uint32 a.trusted_network)) (notify_tnd a)

  -- The `switch` of `handleLoginStateChange`.
  unfoldable pub switch_logged_in : Agent K C → Agent K C
  unfolding notify_login
  switch_logged_in a =
      if a.login_state == LoginState.logged_out
      then (if a.logged_in then notify_login (record a { logged_in = false }) else a)
      else if a.login_state == LoginState.logged_in
      then (if not a.logged_in then notify_login (record a { logged_in = true }) else a)
      else a

  -- `handleLoginStateChange`
  unfoldable pub handle_login_state_change : Agent K C → Agent K C
  unfolding switch_logged_in
  handle_login_state_change a =
      emit (set_property Property.login_state (uint32 a.login_state)) (switch_logged_in a)

  -- `handleLastKeepAliveChange`
  unfoldable pub handle_last_keep_alive_change : Agent K C → Agent K C
  handle_last_keep_alive_change a =
      emit (set_property Property.last_keep_alive_at (int64 a.last_keep_alive)) a

  -- `setKerberosTGT`
  unfoldable pub set_kerberos_tgt : ℤ → ℤ → Agent K C → Agent K C
  unfolding handle_kerberos_tgt_change
  set_kerberos_tgt start end a =
      if start ==ℤ a.kerberos_tgt.start_time && end ==ℤ a.kerberos_tgt.end_time
      then a
      else handle_kerberos_tgt_change
          (record a { kerberos_tgt = record { start_time = start; end_time = end } })

  -- `setTrustedNetwork`
  unfoldable pub set_trusted_network : Bool → Agent K C → Agent K C
  unfolding handle_trusted_network_change
  set_trusted_network trusted a =
      let t = if trusted then TrustedNetwork.trusted else TrustedNetwork.not_trusted in
      if t == a.trusted_network
      then a
      else handle_trusted_network_change (record a { trusted_network = t })

  -- `setLoginState`
  unfoldable pub set_login_state : ℕ → Agent K C → Agent K C
  unfolding handle_login_state_change
  set_login_state l a =
      if l == a.login_state then a else handle_login_state_change (record a { login_state = l })

  -- `setLastKeepAlive`
  unfoldable pub set_last_keep_alive : ℤ → Agent K C → Agent K C
  unfolding handle_last_keep_alive_change
  set_last_keep_alive t a =
      if t ==ℤ a.last_keep_alive
      then a
      else handle_last_keep_alive_change (record a { last_keep_alive = t })
