-- ===== src/Agent/Handlers.antt =====
-- internal/agent/agent.go: starting and stopping the client, and the handlers of the main loop.
use fw_id_agent.Prelude.{
  ℕ, suc, ℤ, str_eq, Bool, false, not, none, some, if◌then◌else◌, is_some, ◌≡◌, inl, inr, arith,
  Option-cases,
}
use fw_id_agent.Status.TrustedNetwork
use fw_id_agent.Status.LoginState
use fw_id_agent.Status.{times_equal}
use fw_id_agent.Dbusapi.{Request, request_re_login, close}
use fw_id_agent.Krbmon.{Krb, CCacheUpdate, ConfUpdate, get_tgt}
use fw_id_agent.LoginClient.State.{Client, new_client, set_ccache, set_krb5_conf}
use fw_id_agent.Agent.State.{
  Agent, start_client as started, stop_client as stopped, reply, emit, held_ccache, held_conf,
}
use fw_id_agent.Agent.Setters.{
  set_kerberos_tgt, set_trusted_network, set_login_state, set_last_keep_alive,
}

module _ {K : Krb} {C : Type 0} where
  -- `startClient`. The tests for nil of an update and of what it points to are one here: both make
  -- the function return.
  unfoldable pub start_client : Agent K C → Agent K C
  start_client a =
      if is_some a.client
      then a
      else if not (is_some (held_ccache a))
      then a
      else if not (is_some (held_conf a))
      then a
      else emit (started a.channels) (record a {
        client = some (new_client a.channels a.config (held_ccache a) (held_conf a));
        login = some a.channels;
        channels = suc a.channels;
      })

  -- The body of `stopClient` behind its test for nil. `Client.Stop` returns when the client has
  -- logged out and ended.
  unfoldable pub stop_running : Client K C → Agent K C → Agent K C
  stop_running c a =
      let b = emit (stopped c.results) (set_login_state LoginState.logging_out a) in
      set_login_state LoginState.logged_out (record b { client = none; login = none })

  -- `stopClient`
  unfoldable pub stop_client : Agent K C → Agent K C
  stop_client a = elim a.client [ none ↦ a | some c ↦ stop_running c a ]

  -- To prove something of the stopped agent, prove it without and with a client.
  pub stop_client_cases {ℓ} :
      (P : Agent K C → Type ℓ) (a : Agent K C)
      → (a.client ≡ none → P a)
      → ((c : Client K C) → a.client ≡ some c → P (stop_running c a))
      → P (stop_client a)
  unfolding stop_client
  stop_client_cases P a idle busy = elim (Option-cases a.client) [
    | inl e ↦ rw (e, stop_client) (idle e)
    | inr (c, e) ↦ rw (e, stop_client) (busy c e)
  ]

  -- `handleTNDResult`
  unfoldable pub handle_tnd_result : Bool → Agent K C → Agent K C
  handle_tnd_result r a =
      let b = set_trusted_network r a in
      if TrustedNetwork.is_trusted b.trusted_network then start_client b else stop_client b

  -- `handleLoginResult`, with the time at which it runs.
  unfoldable pub handle_login_result : ℕ → ℤ → Agent K C → Agent K C
  handle_login_result r now a =
      let b = set_login_state r a in
      if LoginState.is_logged_in r then set_last_keep_alive now b else b

  -- The test that ends both update handlers.
  unfoldable pub start_if_trusted : Agent K C → Agent K C
  start_if_trusted a = if TrustedNetwork.is_trusted a.trusted_network then start_client a else a

  -- Save the update, and set its ccache in a client that runs.
  abbrev pub hold_ccache : CCacheUpdate K → Agent K C → Agent K C
  hold_ccache u a = record a {
    ccache_up = some u;
    client = elim a.client [ none ↦ none | some c ↦ some (set_ccache c u.ccache) ];
  }

  -- Save the update, and set its configuration in a client that runs.
  abbrev pub hold_conf : ConfUpdate K → Agent K C → Agent K C
  hold_conf u a = record a {
    krbcfg_up = some u;
    client = elim a.client [ none ↦ none | some c ↦ some (set_krb5_conf c u.config) ];
  }

  -- The part of `handleCCacheUpdate` behind the test for a changed TGT.
  unfoldable pub adopt_ccache : CCacheUpdate K → ℤ → ℤ → Agent K C → Agent K C
  unfolding start_if_trusted
  adopt_ccache u start end a = start_if_trusted (hold_ccache u (set_kerberos_tgt start end a))

  handle_tgt : CCacheUpdate K → ℤ → ℤ → Agent K C → Agent K C
  handle_tgt u start end a =
      if times_equal a.kerberos_tgt start end then a else adopt_ccache u start end a

  -- `handleCCacheUpdate`
  unfoldable pub handle_ccache_update : CCacheUpdate K → Agent K C → Agent K C
  unfolding handle_tgt
  handle_ccache_update u a = elim (get_tgt K u a.config.realm) [
    | none ↦ a
    | some tgt ↦ handle_tgt u (K.start_unix tgt) (K.end_unix tgt) a
  ]

  pub handle_ccache_update_cases {ℓ} :
      (P : Agent K C → Type ℓ) (u : CCacheUpdate K) (a : Agent K C)
      → P a
      → ((start end : ℤ) → P (adopt_ccache u start end a))
      → P (handle_ccache_update u a)
  unfolding handle_ccache_update
  handle_ccache_update_cases P u a same changed = elim (Option-cases (get_tgt K u a.config.realm)) [
    | inl e ↦ rw (e, handle_ccache_update) same
    | inr (tgt, e) ↦
        rw (e, handle_ccache_update)
          (ground (arith, same, changed (K.start_unix tgt) (K.end_unix tgt)))
  ]

  -- `handleKrbConfUpdate`
  unfoldable pub handle_krb_conf_update : ConfUpdate K → Agent K C → Agent K C
  unfolding start_if_trusted
  handle_krb_conf_update u a = start_if_trusted (hold_conf u a)

  -- `handleDBusRequest`; the deferred `Close` completes the request on every path.
  unfoldable pub handle_dbus_request : Request → Agent K C → Agent K C
  handle_dbus_request request a =
      if str_eq request.name request_re_login
      then (if not (TrustedNetwork.is_trusted a.trusted_network)
          then emit
              (reply (close (record request { error = some "not connected to a trusted network" })))
              a
          else emit (reply (close request)) (start_client (stop_client a)))
      else emit (reply (close request)) a

  -- `handleSleepEvent`
  unfoldable pub handle_sleep_event : Bool → Agent K C → Agent K C
  handle_sleep_event sleep a = if not sleep then a else stop_client (set_trusted_network false a)
