-- ===== src/Agent/Joint/Turns.antt =====
-- What the other events make of the login state.
use fw_id_agent.Prelude.{ℕ, ℤ, ◌≡◌, ◌≢◌, refl, Bool, some, arith}
use fw_id_agent.Status.LoginState
use fw_id_agent.Dbusapi.{Request}
use fw_id_agent.Krbmon.{Krb, CCacheUpdate, ConfUpdate}
use fw_id_agent.Notify.{notify}
use fw_id_agent.Agent.State.{Agent}
use fw_id_agent.Agent.Setters.{
  set_kerberos_tgt, set_trusted_network, set_login_state, set_last_keep_alive,
}
use fw_id_agent.Agent.Handlers.{
  start_client, stop_running, stop_client, handle_tnd_result, handle_login_result, adopt_ccache,
  handle_ccache_update_cases, handle_krb_conf_update, handle_dbus_request, handle_sleep_event,
  start_if_trusted,
}
use fw_id_agent.Agent.Lifecycle.{IsServed}
use fw_id_agent.Agent.Reach.{WhileRunning}
use fw_id_agent.Agent.Loop.{
  Event, tnd_result, login_result, ccache_update, krbcfg_update, dbus_request, sleep_event,
  tnd_closed, ccache_closed, krbcfg_closed, dbus_closed, sleep_closed, login_closed, done, running,
  listens, select,
}
use fw_id_agent.Agent.Joint.{IsOther}

module _ {K : Krb} {C : Type 0} where
  -- The state stays with the client, and is "logged out" once there is another or none.
  pub record Turn (a b : Agent K C) : Type 0 where
    pub same : b.login ≡ a.login → b.login_state ≡ a.login_state
    pub fresh : b.login ≢ a.login → b.login_state ≡ LoginState.logged_out

  tnd-Turn : (r : Bool) (a : Agent K C) → IsServed a → Turn a (handle_tnd_result r a)
  unfolding handle_tnd_result set_trusted_network start_client stop_client stop_running
      set_login_state notify
  tnd-Turn r a v = record { same = λ h. ground arith; fresh = λ h. ground arith }

  ccache-Turn :
      (u : CCacheUpdate K) (start end : ℤ) (a : Agent K C)
      → IsServed a
      → Turn a (adopt_ccache u start end a)
  unfolding adopt_ccache start_if_trusted start_client set_kerberos_tgt
  ccache-Turn u start end a v = record { same = λ h. ground arith; fresh = λ h. ground arith }

  krbcfg-Turn :
      (u : ConfUpdate K) (a : Agent K C) → IsServed a → Turn a (handle_krb_conf_update u a)
  unfolding handle_krb_conf_update start_if_trusted start_client
  krbcfg-Turn u a v = record { same = λ h. ground arith; fresh = λ h. ground arith }

  dbus-Turn : (r : Request) (a : Agent K C) → IsServed a → Turn a (handle_dbus_request r a)
  unfolding handle_dbus_request start_client stop_client stop_running set_login_state notify
  dbus-Turn r a v = record { same = λ h. ground arith; fresh = λ h. ground arith }

  sleep-Turn : (s : Bool) (a : Agent K C) → IsServed a → Turn a (handle_sleep_event s a)
  unfolding handle_sleep_event set_trusted_network stop_client stop_running set_login_state notify
  sleep-Turn s a v = record { same = λ h. ground arith; fresh = λ h. ground arith }

  stay-Turn : (a : Agent K C) → Turn a a
  stay-Turn a = record { same = λ h. refl; fresh = λ h. absurd (h refl) }

  -- A round of the loop that takes an event of another component, or returns.
  select-Turn :
      (a : Agent K C) (e : Event K) → IsOther e → IsServed a → WhileRunning (Turn a) (select a e)
  unfolding select
  select-Turn a (tnd_result r) o v = tnd-Turn r a v
  select-Turn a (login_result ch r now) o v = absurd o
  select-Turn a (ccache_update u) o v =
      handle_ccache_update_cases (Turn a) u a (stay-Turn a) (λ s e. ccache-Turn u s e a v)
  select-Turn a (krbcfg_update u) o v = krbcfg-Turn u a v
  select-Turn a (dbus_request r) o v = dbus-Turn r a v
  select-Turn a (sleep_event s) o v = sleep-Turn s a v
  select-Turn a (login_closed ch) o v = absurd o
  select-Turn a tnd_closed o v = tt
  select-Turn a ccache_closed o v = tt
  select-Turn a krbcfg_closed o v = tt
  select-Turn a dbus_closed o v = tt
  select-Turn a sleep_closed o v = tt
  select-Turn a done o v = tt

  pub turn :
      {a b : Agent K C} (e : Event K) → IsOther e → IsServed a → select a e ≡ running b → Turn a b
  turn {a} e o v ran = let t = select-Turn a e o v in rw ran at t

  login_state-handle_login_result :
      (x : ℕ) (now : ℤ) (a : Agent K C) → (handle_login_result x now a).login_state ≡ x
  unfolding handle_login_result set_login_state set_last_keep_alive notify
  login_state-handle_login_result x now a = ground arith

  told_result :
      (a : Agent K C) (ch x : ℕ) (now : ℤ)
      → a.login ≡ some ch
      → WhileRunning (λ b. b.login_state ≡ x) (select a (login_result ch x now))
  unfolding select listens
  told_result a ch x now h = ground (arith, login_state-handle_login_result x now a)

  -- A result of the client to which the agent listens becomes its login state.
  pub login_state-told :
      (a b : Agent K C) (ch x : ℕ) (now : ℤ)
      → a.login ≡ some ch
      → select a (login_result ch x now) ≡ running b
      → b.login_state ≡ x
  login_state-told a b ch x now h ran = let t = told_result a ch x now h in rw ran at t
