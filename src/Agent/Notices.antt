-- ===== src/Agent/Notices.antt =====
-- The desktop notifications about the login.
use fw_id_agent.Prelude.{
  ℕ, ℤ, str_eq, ◌≡◌, Bool, true, false, not, ◌&&◌, List, [], ◌∷◌, arith, is_some, if◌then◌else◌,
}
use fw_id_agent.Status.LoginState
use fw_id_agent.Dbusapi.{Request}
use fw_id_agent.Krbmon.{Krb, CCacheUpdate, ConfUpdate}
use fw_id_agent.Agent.State.{Agent, Effect, notification}
use fw_id_agent.Agent.Setters.{
  set_kerberos_tgt, set_trusted_network, set_login_state, set_last_keep_alive,
}
use fw_id_agent.Agent.Reach.{IsInvariant}
use fw_id_agent.Agent.Handlers.{
  start_client, stop_running, stop_client, stop_client_cases, handle_tnd_result,
  handle_login_result, adopt_ccache, handle_ccache_update_cases, handle_krb_conf_update,
  handle_dbus_request, handle_sleep_event, start_if_trusted, hold_conf, hold_ccache,
}

-- The login notifications among the effects, newest first: `true` for a login, `false` for a logout.
abbrev pub login_notices : List Effect → List Bool
login_notices [] = []
login_notices (notification n ∷ es) =
    let rest = login_notices es in
    if str_eq n.title "Identity Agent Login"
    then true ∷ rest
    else if str_eq n.title "Identity Agent Logout"
    then false ∷ rest
    else rest
login_notices (e ∷ es) = login_notices es

-- Newest first: the last notice says `b`, each says the contrary of the one before, and the first
-- of all is a login.
abbrev pub Alternates : Bool → List Bool → Type 0
Alternates b [] = b ≡ false
Alternates b (x ∷ xs) = (x ≡ b) × Alternates (not b) xs

-- Where notifications are shown they alternate; where they are not there are none.
abbrev pub Announced : Bool → Bool → List Bool → Type 0
Announced true b l = Alternates b l
Announced false b l = l ≡ []

module _ {K : Krb} {C : Type 0} where
  -- Notifications are enabled, and there is a notifier to show them.
  abbrev pub shows : Agent K C → Bool
  shows a = a.config.notifications && is_some a.notifier

  abbrev pub Announces : Agent K C → Type 0
  Announces a = Announced (shows a) a.logged_in (login_notices a.trace)

  set_login_state-Announces :
      (l : ℕ) (a : Agent K C) → Announces a → Announces (set_login_state l a)
  unfolding set_login_state
  set_login_state-Announces l a m = ground arith

  set_trusted_network-Announces :
      (t : Bool) (a : Agent K C) → Announces a → Announces (set_trusted_network t a)
  unfolding set_trusted_network
  set_trusted_network-Announces t a m = ground arith

  start_client-Announces : (a : Agent K C) → Announces a → Announces (start_client a)
  unfolding start_client
  start_client-Announces a m = ground arith

  start_if_trusted-Announces : (a : Agent K C) → Announces a → Announces (start_if_trusted a)
  unfolding start_if_trusted
  start_if_trusted-Announces a m = ground (arith, start_client-Announces a m)

  stop_client-Announces : (a : Agent K C) → Announces a → Announces (stop_client a)
  unfolding stop_running
  stop_client-Announces a m =
      stop_client_cases Announces a (λ _. m)
        (λ c _.
          set_login_state-Announces LoginState.logged_out _
            (set_login_state-Announces LoginState.logging_out a m))

  set_kerberos_tgt-Announces :
      (start end : ℤ) (a : Agent K C) → Announces a → Announces (set_kerberos_tgt start end a)
  unfolding set_kerberos_tgt
  set_kerberos_tgt-Announces start end a m = ground arith

  adopt_ccache-Announces :
      (u : CCacheUpdate K) (start end : ℤ) (a : Agent K C)
      → Announces a
      → Announces (adopt_ccache u start end a)
  unfolding adopt_ccache
  adopt_ccache-Announces u start end a m =
      start_if_trusted-Announces (hold_ccache u (set_kerberos_tgt start end a))
        (set_kerberos_tgt-Announces start end a m)

  handle_tnd_result-Announces :
      (r : Bool) (a : Agent K C) → Announces a → Announces (handle_tnd_result r a)
  unfolding handle_tnd_result
  handle_tnd_result-Announces r a m =
      let b = set_trusted_network r a in
      let kept = set_trusted_network-Announces r a m in
      ground (arith, start_client-Announces b kept, stop_client-Announces b kept)

  handle_login_result-Announces :
      (r : ℕ) (now : ℤ) (a : Agent K C) → Announces a → Announces (handle_login_result r now a)
  unfolding handle_login_result set_last_keep_alive
  handle_login_result-Announces r now a m = ground (arith, set_login_state-Announces r a m)

  handle_krb_conf_update-Announces :
      (u : ConfUpdate K) (a : Agent K C) → Announces a → Announces (handle_krb_conf_update u a)
  unfolding handle_krb_conf_update
  handle_krb_conf_update-Announces u a m = start_if_trusted-Announces (hold_conf u a) m

  handle_dbus_request-Announces :
      (r : Request) (a : Agent K C) → Announces a → Announces (handle_dbus_request r a)
  unfolding handle_dbus_request
  handle_dbus_request-Announces r a m =
      ground (arith, start_client-Announces (stop_client a) (stop_client-Announces a m), m)

  handle_sleep_event-Announces :
      (s : Bool) (a : Agent K C) → Announces a → Announces (handle_sleep_event s a)
  unfolding handle_sleep_event
  handle_sleep_event-Announces false a m = m
  handle_sleep_event-Announces true a m =
      stop_client-Announces (set_trusted_network false a) (set_trusted_network-Announces false a m)

  pub Announces-IsInvariant : IsInvariant {K = K} {C = C} Announces
  Announces-IsInvariant = record {
    on_tnd = handle_tnd_result-Announces;
    on_login = λ r ch now a _ m. handle_login_result-Announces r now a m;
    on_ccache = λ u a _ m.
        handle_ccache_update_cases Announces u a m (λ s e. adopt_ccache-Announces u s e a m);
    on_krbcfg = λ u a _ m. handle_krb_conf_update-Announces u a m;
    on_dbus = handle_dbus_request-Announces;
    on_sleep = handle_sleep_event-Announces;
  }
