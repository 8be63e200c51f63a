-- ===== src/Agent/Lifecycle.antt =====
-- The client runs exactly when it should, with what the agent holds.
use fw_id_agent.Prelude.{
  ℕ, suc, ℤ, ◌≤◌, ◌≡◌, Bool, true, false, ◌&&◌, Option, none, some, arith, is_some,
}
use fw_id_agent.Config.{Config}
use fw_id_agent.Status.TrustedNetwork
use fw_id_agent.Status.LoginState
use fw_id_agent.Krbmon.{Krb}
use fw_id_agent.LoginClient.State.{Client, new_client}
use fw_id_agent.Agent.State.{Agent, held_ccache, held_conf}
use fw_id_agent.Agent.Setters.{
  set_kerberos_tgt, set_trusted_network, set_login_state, set_last_keep_alive,
}
use fw_id_agent.Agent.Handlers.{start_client, stop_running, stop_client}

abbrev pub bound : Option ℕ → ℕ
bound none = 0
bound (some l) = suc l

module _ {K : Krb} {C : Type 0} where
  -- What the agent waits for before it starts a client.
  abbrev pub is_ready : Agent K C → Bool
  is_ready a =
      TrustedNetwork.is_trusted a.trusted_network
      && is_some (held_ccache a)
      && is_some (held_conf a)

  abbrev pub results_of : Option (Client K C) → Option ℕ
  results_of none = none
  results_of (some c) = some c.results

  -- What a client works with, without its results channel.
  abbrev pub setup_of : Option (Client K C) → Option (Config C × Option K.CCache × Option K.Conf)
  setup_of none = none
  setup_of (some c) = some (c.config, c.ccache, c.krb5conf)

  abbrev pub setup_if : Bool → Agent K C → Option (Config C × Option K.CCache × Option K.Conf)
  setup_if false a = none
  setup_if true a = some (a.config, held_ccache a, held_conf a)

  -- A client runs if and only if `runs` says so; it works with what the agent holds, and the agent
  -- listens to it. With no client the state is "logged out", and the flag for the notifications
  -- agrees with the states "logged in" and "logged out".
  pub record Serves (runs : Bool) (a : Agent K C) : Type 0 where
    pub setup : setup_of a.client ≡ setup_if runs a
    pub listening : a.login ≡ results_of a.client
    pub fresh : bound a.login ≤ a.channels
    pub idle : a.client ≡ none → a.login_state ≡ LoginState.logged_out
    pub flag_in : a.login_state ≡ LoginState.logged_in → a.logged_in ≡ true
    pub flag_out : a.login_state ≡ LoginState.logged_out → a.logged_in ≡ false

  pub set_trusted_network-Serves :
      (t r : Bool) (a : Agent K C) → Serves r a → Serves r (set_trusted_network t a)
  unfolding set_trusted_network
  set_trusted_network-Serves t r a v = ground arith

  pub set_last_keep_alive-Serves :
      (t : ℤ) (r : Bool) (a : Agent K C) → Serves r a → Serves r (set_last_keep_alive t a)
  unfolding set_last_keep_alive
  set_last_keep_alive-Serves t r a v = ground arith

  pub set_kerberos_tgt-Serves :
      (s e : ℤ) (r : Bool) (a : Agent K C) → Serves r a → Serves r (set_kerberos_tgt s e a)
  unfolding set_kerberos_tgt
  set_kerberos_tgt-Serves s e r a v = ground arith

  -- A login result comes from a client that runs.
  pub set_login_state_listening :
      (l ch : ℕ) (r : Bool) (a : Agent K C)
      → Serves r a
      → a.login ≡ some ch
      → Serves r (set_login_state l a)
  unfolding set_login_state
  set_login_state_listening l ch r a v h = ground arith

  pub is_ready-set_login_state :
      (l : ℕ) (a : Agent K C) → is_ready (set_login_state l a) ≡ is_ready a
  unfolding set_login_state
  is_ready-set_login_state l a = ground arith

  pub is_ready-set_last_keep_alive :
      (t : ℤ) (a : Agent K C) → is_ready (set_last_keep_alive t a) ≡ is_ready a
  unfolding set_last_keep_alive
  is_ready-set_last_keep_alive t a = ground arith

  pub is_ready-set_kerberos_tgt :
      (s e : ℤ) (a : Agent K C) → is_ready (set_kerberos_tgt s e a) ≡ is_ready a
  unfolding set_kerberos_tgt
  is_ready-set_kerberos_tgt s e a = ground arith

  pub is_ready-stop_client : (a : Agent K C) → is_ready (stop_client a) ≡ is_ready a
  unfolding stop_client stop_running set_login_state
  is_ready-stop_client a = ground arith

  -- `Serves` at the value that the agent's own fields call for.
  abbrev pub IsServed : Agent K C → Type 0
  IsServed a = Serves (is_ready a) a

  pub start_client-IsServed :
      (r : Bool) (a : Agent K C)
      → Serves r a
      → TrustedNetwork.is_trusted a.trusted_network ≡ true
      → (r ≡ true → is_ready a ≡ true)
      → IsServed (start_client a)
  unfolding start_client new_client
  start_client-IsServed r a v t h = ground arith

  pub stop_client-Serves : (r : Bool) (a : Agent K C) → Serves r a → Serves false (stop_client a)
  unfolding stop_client stop_running set_login_state
  stop_client-Serves r a v = ground arith

  pub is_trusted-set_trusted_network :
      (t : Bool) (a : Agent K C)
      → TrustedNetwork.is_trusted (set_trusted_network t a).trusted_network ≡ t
  unfolding set_trusted_network
  is_trusted-set_trusted_network t a = ground arith

  pub is_ready-set_trusted_network :
      (t : Bool) (a : Agent K C)
      → is_ready (set_trusted_network t a)
        ≡ (t && (is_some (held_ccache a) && is_some (held_conf a)))
  unfolding set_trusted_network
  is_ready-set_trusted_network t a = ground arith

  pub stop_client-IsServed :
      (r : Bool) (a : Agent K C)
      → Serves r a
      → TrustedNetwork.is_trusted a.trusted_network ≡ false
      → IsServed (stop_client a)
  stop_client-IsServed r a v t =
      let off : is_ready (stop_client a) ≡ false = ground (arith, is_ready-stop_client a) in
      rw off (stop_client-Serves r a v)

  pub trusted_network-stop_client :
      (a : Agent K C) → (stop_client a).trusted_network ≡ a.trusted_network
  unfolding stop_client stop_running set_login_state
  trusted_network-stop_client a = ground arith
