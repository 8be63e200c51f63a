-- ===== src/Agent/Served.antt =====
-- Every handler of the main loop keeps the agent served.
use fw_id_agent.Prelude.{ℕ, ℤ, ◌≡◌, Bool, true, false, some, arith, is_some, Bool-cases, inl, inr}
use fw_id_agent.Status.TrustedNetwork
use fw_id_agent.Status.LoginState
use fw_id_agent.Dbusapi.{Request, close}
use fw_id_agent.Krbmon.{Krb, CCacheUpdate, ConfUpdate}
use fw_id_agent.Agent.State.{Agent, Effect, reply, emit}
use fw_id_agent.Agent.Setters.{set_kerberos_tgt, set_login_state}
use fw_id_agent.Agent.Reach.{IsInvariant}
use fw_id_agent.Agent.Handlers.{
  start_client, start_if_trusted, stop_client, handle_tnd_result, handle_login_result, adopt_ccache,
  hold_conf, hold_ccache, handle_ccache_update, handle_ccache_update_cases, handle_krb_conf_update,
  handle_dbus_request, handle_sleep_event,
}
use fw_id_agent.Agent.Lifecycle.{
  Serves, IsServed, is_ready, set_trusted_network-Serves, set_last_keep_alive-Serves,
  set_kerberos_tgt-Serves, set_login_state_listening, start_client-IsServed, stop_client-Serves,
  is_ready-set_login_state, is_ready-set_last_keep_alive, is_ready-set_kerberos_tgt,
  is_trusted-set_trusted_network, is_ready-set_trusted_network, stop_client-IsServed,
  trusted_network-stop_client,
}

module _ {K : Krb} {C : Type 0} where
  start_if_trusted-IsServed :
      (r : Bool) (a : Agent K C)
      → Serves r a
      → (r ≡ true → is_ready a ≡ true)
      → IsServed (start_if_trusted a)
  unfolding start_if_trusted
  start_if_trusted-IsServed r a v h =
      elim (Bool-cases (TrustedNetwork.is_trusted a.trusted_network)) [
        | inl t ↦ rw t (start_client-IsServed r a v t h)
        | inr t ↦
            let never : r ≡ false = ground arith in
            let off : is_ready a ≡ false = ground arith in rw t (rw off (rw never at v))
      ]

  handle_tnd_result-IsServed :
      (r : Bool) (a : Agent K C) → IsServed a → IsServed (handle_tnd_result r a)
  unfolding handle_tnd_result
  handle_tnd_result-IsServed r a v =
      let kept = set_trusted_network-Serves r (is_ready a) a v in
      let t = is_trusted-set_trusted_network r a in
      elim (Bool-cases r) [
        | inl on ↦
            rw (t, on)
              (start_client-IsServed (is_ready a) _ (rw on at kept) (rw on at t)
                (λ h. ground (arith, is_ready-set_trusted_network true a)))
        | inr off ↦ rw (t, off) (stop_client-IsServed (is_ready a) _ (rw off at kept) (rw off at t))
      ]

  handle_sleep_event-IsServed :
      (s : Bool) (a : Agent K C) → IsServed a → IsServed (handle_sleep_event s a)
  unfolding handle_sleep_event
  handle_sleep_event-IsServed false a v = v
  handle_sleep_event-IsServed true a v =
      stop_client-IsServed (is_ready a) _ (set_trusted_network-Serves false (is_ready a) a v)
        (is_trusted-set_trusted_network false a)

  handle_login_result-IsServed :
      (r ch : ℕ) (now : ℤ) (a : Agent K C)
      → a.login ≡ some ch
      → IsServed a
      → IsServed (handle_login_result r now a)
  unfolding handle_login_result
  handle_login_result-IsServed r ch now a h v =
      let kept = set_login_state_listening r ch (is_ready a) a v h in
      let same = is_ready-set_login_state r a in
      elim (Bool-cases (LoginState.is_logged_in r)) [
        | inl e ↦ rw e (
            rw (is_ready-set_last_keep_alive now (set_login_state r a), same)
              (set_last_keep_alive-Serves now (is_ready a) _ kept))
        | inr e ↦ rw e (rw same kept)
      ]

  handle_krb_conf_update-IsServed :
      (u : ConfUpdate K) (a : Agent K C)
      → is_some u.config ≡ true
      → IsServed a
      → IsServed (handle_krb_conf_update u a)
  unfolding handle_krb_conf_update
  handle_krb_conf_update-IsServed u a h v =
      start_if_trusted-IsServed (is_ready a) (hold_conf u a) (ground arith) (λ r. ground arith)

  adopt_ccache-IsServed :
      (u : CCacheUpdate K) (start end : ℤ) (a : Agent K C)
      → is_some u.ccache ≡ true
      → IsServed a
      → IsServed (adopt_ccache u start end a)
  unfolding adopt_ccache
  adopt_ccache-IsServed u start end a h v =
      let kept = set_kerberos_tgt-Serves start end (is_ready a) a v in
      let same = is_ready-set_kerberos_tgt start end a in
      start_if_trusted-IsServed (is_ready a) (hold_ccache u (set_kerberos_tgt start end a))
        (ground (arith, kept)) (λ r. ground (arith, same))

  handle_ccache_update-IsServed :
      (u : CCacheUpdate K) (a : Agent K C)
      → is_some u.ccache ≡ true
      → IsServed a
      → IsServed (handle_ccache_update u a)
  handle_ccache_update-IsServed u a h v =
      handle_ccache_update_cases IsServed u a v (λ s e. adopt_ccache-IsServed u s e a h v)

  emit-IsServed : (e : Effect) (a : Agent K C) → IsServed a → IsServed (emit e a)
  emit-IsServed e a v = ground arith

  handle_dbus_request-IsServed :
      (r : Request) (a : Agent K C) → IsServed a → IsServed (handle_dbus_request r a)
  unfolding handle_dbus_request
  handle_dbus_request-IsServed r a v =
      elim (Bool-cases (TrustedNetwork.is_trusted a.trusted_network)) [
        | inl t ↦
            let again : IsServed (start_client (stop_client a)) =
              start_client-IsServed false (stop_client a) (stop_client-Serves (is_ready a) a v)
                (rw (trusted_network-stop_client a) t) (λ h. cc) in
            rw t (
              ground (
                arith,
                emit-IsServed (reply (close r)) _ again,
                emit-IsServed (reply (close r)) a v,
              ))
        | inr t ↦ rw t (ground (arith, v))
      ]

  pub IsServed-IsInvariant : IsInvariant {K = K} {C = C} IsServed
  IsServed-IsInvariant = record {
    on_tnd = handle_tnd_result-IsServed;
    on_login = handle_login_result-IsServed;
    on_ccache = handle_ccache_update-IsServed;
    on_krbcfg = handle_krb_conf_update-IsServed;
    on_dbus = handle_dbus_request-IsServed;
    on_sleep = handle_sleep_event-IsServed;
  }
