-- ===== src/Agent/Relogin.antt =====
-- The re-login request, and what becomes of the client that it replaces.
use fw_id_agent.Prelude.{ℕ, ◌<◌, ℤ, ◌≡◌, true, false, none, some, arith, eq_iff}
use fw_id_agent.Status.LoginState
use fw_id_agent.Status.TrustedNetwork
use fw_id_agent.Dbusapi.{Request, request_re_login, close}
use fw_id_agent.Krbmon.{Krb}
use fw_id_agent.LoginClient.State.{Client, new_client}
use fw_id_agent.Agent.State.{Agent, emit, reply}
use fw_id_agent.Agent.Setters.{set_login_state}
use fw_id_agent.Agent.Handlers.{start_client, stop_running, stop_client, handle_dbus_request}
use fw_id_agent.Agent.Loop.{login_result, login_closed, running, select}
use fw_id_agent.Agent.Lifecycle.{is_ready, IsServed}

module _ {K : Krb} {C : Type 0} (a : Agent K C) (c : Client K C) where
  -- The request in a trusted network, without its reply.
  relogin_trusted :
      (r : Request)
      → IsServed a
      → a.client ≡ some c
      → r.name ≡ request_re_login
      → handle_dbus_request r a ≡ emit (reply (close r)) (start_client (stop_running c a))
  unfolding handle_dbus_request stop_client
  relogin_trusted r v h e = ground (arith, eq_iff r.name request_re_login)

  restarted :
      IsServed a
      → a.client ≡ some c
      → let b = start_client (stop_running c a) in
        (b.client ≡ some (new_client a.channels a.config c.ccache c.krb5conf))
        × (b.login ≡ some a.channels)
        × (c.results < a.channels)
        × (b.login_state ≡ LoginState.logged_out)
        × (b.logged_in ≡ false)
  unfolding start_client stop_running set_login_state new_client
  restarted v h = ground arith

module _ {K : Krb} {C : Type 0} (a : Agent K C) where
  -- In a served agent with no client, a re-login request in a trusted network starts none, since the
  -- ccache or the Kerberos configuration is missing, and all that the agent does is to complete the
  -- request.
  pub relogin_idle :
      (r : Request)
      → IsServed a
      → TrustedNetwork.is_trusted a.trusted_network ≡ true
      → a.client ≡ none
      → r.name ≡ request_re_login
      → (is_ready a ≡ false) × (handle_dbus_request r a ≡ emit (reply (close r)) a)
  unfolding handle_dbus_request stop_client start_client
  relogin_idle r v t h e = (ground arith, ground (arith, eq_iff r.name request_re_login))

  -- A new client, made from the agent's configuration and the ccache and Kerberos configuration of
  -- `c`, has taken the place of `c`, with another results channel; the agent is logged out; and from
  -- then on a result of `c`, or the closing of its channel, leaves the agent as it is.
  abbrev pub Replaces : Client K C → Agent K C → Type 0
  Replaces c b =
      (b.client ≡ some (new_client a.channels a.config c.ccache c.krb5conf))
      × (b.login ≡ some a.channels)
      × (c.results < a.channels)
      × (b.login_state ≡ LoginState.logged_out)
      × (b.logged_in ≡ false)
      × ((l : ℕ) (now : ℤ) → select b (login_result c.results l now) ≡ running b)
      × (select b (login_closed c.results) ≡ running b)

module _ {K : Krb} {C : Type 0} (a : Agent K C) (c : Client K C) (r : Request) where
  -- In a served agent with the client `c`, a re-login request replaces `c` by a new client, made
  -- from the agent's configuration and the ccache and Kerberos configuration of `c`, with a results
  -- channel that `c` does not have; the agent is logged out. From then on a result of `c`, or the
  -- closing of its channel, leaves the agent as it is.
  pub relogin_replaces :
      IsServed a
      → a.client ≡ some c
      → r.name ≡ request_re_login
      → let b = handle_dbus_request r a in
        (b.client ≡ some (new_client a.channels a.config c.ccache c.krb5conf))
        × (b.login ≡ some a.channels)
        × (c.results < a.channels)
        × (b.login_state ≡ LoginState.logged_out)
        × (b.logged_in ≡ false)
        × ((l : ℕ) (now : ℤ) → select b (login_result c.results l now) ≡ running b)
        × (select b (login_closed c.results) ≡ running b)
  unfolding select
  relogin_replaces v h e = rw (relogin_trusted a c r v h e) (
      let (made, listening, fresh, state, flag) = restarted a c v h in
      (made, listening, fresh, state, flag, (λ l now. ground arith), ground arith))
