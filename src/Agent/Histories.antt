-- ===== src/Agent/Histories.antt =====
-- What holds of an agent that has started, after any events.
use fw_id_agent.Prelude.{◌≡◌, Option, none, List, arith, All}
use fw_id_agent.Config.{Config}
use fw_id_agent.Krbmon.{Krb}
use fw_id_agent.Notify.{Notifier}
use fw_id_agent.Agent.State.{Agent, new_agent}
use fw_id_agent.Agent.Setters.{set_trusted_network, set_login_state}
use fw_id_agent.Agent.Loop.{Event, run}
use fw_id_agent.Agent.Start.{Environment, start, start_ok, status_set, published_by, init_tnd}
use fw_id_agent.Agent.Mirror.{Mirrors, Mirrors-IsInvariant}
use fw_id_agent.Agent.Lifecycle.{IsServed}
use fw_id_agent.Agent.Served.{IsServed-IsInvariant}
use fw_id_agent.Agent.Notices.{Announces, Announces-IsInvariant}
use fw_id_agent.Agent.Reach.{IsProper, WhileRunning, run_inv}

module _ {C : Type 0} (env : Environment C) where
  published_by-Mirrors : {K : Krb} (a : Agent K C) → Mirrors a → Mirrors (published_by env a)
  published_by-Mirrors a m = ground arith

  published_by-IsServed : {K : Krb} (a : Agent K C) → IsServed a → IsServed (published_by env a)
  published_by-IsServed a m = ground arith

  published_by-Announces : {K : Krb} (a : Agent K C) → Announces a → Announces (published_by env a)
  published_by-Announces a m = ground arith

module _ (K : Krb) {C : Type 0} (config : Config C) (n : Option Notifier) where
  first : Agent K C
  first = status_set (new_agent config n)

  first-Mirrors : Mirrors first
  unfolding first set_trusted_network set_login_state init_tnd
  first-Mirrors = ground arith

  first-IsServed : IsServed first
  unfolding first set_trusted_network set_login_state init_tnd
  first-IsServed = ground arith

  first-Announces : Announces first
  unfolding first set_trusted_network set_login_state init_tnd
  first-Announces = ground arith

-- The agent that `NewAgent` returns has started with no error.
abbrev pub Starts :
    {K : Krb} {C : Type 0} → Environment C → Config C → Option Notifier → Agent K C → Type 0
Starts env config n a = start env (new_agent config n) ≡ (none, a)

module _ {K : Krb} {C : Type 0} (env : Environment C) (config : Config C) (n : Option Notifier)
    (a : Agent K C) (ok : Starts env config n a) where
  pub start-IsServed : IsServed a
  unfolding first
  start-IsServed =
      rw (start_ok env _ a ok) (published_by-IsServed env _ (first-IsServed K config n))

  -- After a start with no error, and any updates and events in which no update is empty: as long as
  -- the loop runs, a client runs if and only if the network is trusted and a ccache and a Kerberos
  -- configuration are held; it works with the agent's configuration and with the ccache and Kerberos
  -- configuration that the agent holds; the agent listens to this client's results and to no
  -- other's; with no client the login state is "logged out"; and the flag that guards the login
  -- notifications is set in the state "logged in" and not set in the state "logged out".
  pub run-IsServed : (es : List (Event K)) → All IsProper es → WhileRunning IsServed (run a es)
  run-IsServed es proper = run_inv IsServed-IsInvariant a es proper start-IsServed

  -- After a start with no error, and any events in which no update is empty: as long as the loop
  -- runs, the D-Bus properties for the trusted network, the login state, the last keep-alive and the
  -- two TGT times were last set to the agent's values. A time that was never set is 0 in the agent.
  pub run-Mirrors : (es : List (Event K)) → All IsProper es → WhileRunning Mirrors (run a es)
  unfolding first
  run-Mirrors es proper =
      run_inv Mirrors-IsInvariant a es proper
        (rw (start_ok env _ a ok) (published_by-Mirrors env _ (first-Mirrors K config n)))

  -- After a start with no error, and any events in which no update is empty: as long as the loop
  -- runs, and where notifications are enabled and a notifier exists, the login notifications
  -- alternate, a login first, and the newest is a login if and only if the agent counts as logged
  -- in; where they are not enabled or no notifier exists there is no login notification.
  pub run-Announces : (es : List (Event K)) → All IsProper es → WhileRunning Announces (run a es)
  unfolding first
  run-Announces es proper =
      run_inv Announces-IsInvariant a es proper
        (rw (start_ok env _ a ok) (published_by-Announces env _ (first-Announces K config n)))
