-- ===== src/Tests/Agent.antt =====
-- The agent at concrete histories.
use fw_id_agent.Prelude.{
  ℕ, ◌<◌, ◌≡◌, refl, Bool, true, false, some, List, [], ◌∷◌, arith, pos, ℤ, All,
}
use fw_id_agent.Config.{get_keep_alive}
use fw_id_agent.Status.LoginState
use fw_id_agent.Dbusapi.{new_request, request_re_login}
use fw_id_agent.LoginClient.State.{Client, new_client}
use fw_id_agent.Agent.State.{Agent}
use fw_id_agent.Agent.Setters.{
  set_trusted_network, set_login_state, set_kerberos_tgt, set_last_keep_alive,
}
use fw_id_agent.Agent.Handlers.{
  start_client, stop_client, stop_running, start_if_trusted, handle_tnd_result, handle_login_result,
  adopt_ccache, handle_ccache_update, handle_krb_conf_update, handle_dbus_request,
  handle_sleep_event,
}
use fw_id_agent.Krbmon.{get_tgt}
use fw_id_agent.Agent.Loop.{
  agent_of, Event, Loop, run, running, returned, select, stop, tnd_result, dbus_request,
  login_result, login_closed,
}
use fw_id_agent.Agent.Mirror.{Mirrors}
use fw_id_agent.Agent.Lifecycle.{IsServed}
use fw_id_agent.Agent.Notices.{Announces, login_notices}
use fw_id_agent.Agent.Reach.{IsProper, WhileRunning}
use fw_id_agent.Agent.Shutdown.{stop_ends, IsStopped}
use fw_id_agent.Agent.Relogin.{relogin_replaces}
use fw_id_agent.Agent.Sleep.{sleep_lasts, IsDormant}
use fw_id_agent.Agent.Histories.{run-IsServed, run-Mirrors, run-Announces}
use fw_id_agent.Tests.Data.{krb, settings, environment, notifier, started, started-Starts, morning}

pub morning-IsProper : All IsProper morning
morning-IsProper = ground arith

run-IsServed_example : WhileRunning IsServed (run started morning)
run-IsServed_example =
    run-IsServed environment settings notifier started started-Starts morning morning-IsProper

run-Mirrors_example : WhileRunning Mirrors (run started morning)
run-Mirrors_example =
    run-Mirrors environment settings notifier started started-Starts morning morning-IsProper

run-Announces_example : WhileRunning Announces (run started morning)
run-Announces_example =
    run-Announces environment settings notifier started started-Starts morning morning-IsProper

abbrev is_running : Loop krb Bool → Bool
is_running (running a) = true
is_running (returned a) = false

agent_of-WhileRunning :
    (P : Agent krb Bool → Type 0) (l : Loop krb Bool)
    → is_running l ≡ true
    → WhileRunning P l
    → P (agent_of l)
agent_of-WhileRunning P (running a) h p = p
agent_of-WhileRunning P (returned a) h p = cc

-- `run` with all that it calls, to evaluate a history.
unfoldable pub execute : Agent krb Bool → List (Event krb) → Loop krb Bool
unfolding run select handle_tnd_result handle_login_result handle_ccache_update adopt_ccache
    handle_krb_conf_update handle_dbus_request start_client stop_client stop_running new_client
    set_trusted_network set_login_state set_kerberos_tgt set_last_keep_alive get_tgt get_keep_alive
    start_if_trusted started
execute a es = run a es

-- The agent after the morning: its second client runs, on the channel 1, and is logged in.
abbrev pub busy : Agent krb Bool
busy = agent_of (run started morning)

abbrev pub second : Client krb Bool
second = record {
  config = settings;
  keep_alive = pos 300000000000;
  results = 1;
  ccache = some 40;
  krb5conf = some 1;
}

pub busy_client : busy.client ≡ some second
unfolding execute
busy_client = refl

busy_status :
    (busy.login_state ≡ LoginState.logged_in)
    × (busy.last_keep_alive ≡ pos 1001)
    × (login_notices busy.trace ≡ true ∷ false ∷ true ∷ [])
unfolding execute
busy_status = (refl, refl, refl)

morning_runs : is_running (run started morning) ≡ true
unfolding execute
morning_runs = refl

running-agent_of : (l : Loop krb Bool) → is_running l ≡ true → l ≡ running (agent_of l)
running-agent_of (running a) h = refl
running-agent_of (returned a) h = cc

pub morning-busy : run started morning ≡ running busy
morning-busy = running-agent_of (run started morning) morning_runs

pub busy-IsServed : IsServed busy
busy-IsServed =
    agent_of-WhileRunning IsServed (run started morning) morning_runs run-IsServed_example

busy-Mirrors : Mirrors busy
busy-Mirrors = agent_of-WhileRunning Mirrors (run started morning) morning_runs run-Mirrors_example

stop_ends_example :
    (b : Agent krb Bool) × (stop busy (tnd_result true ∷ []) ≡ returned b) × IsStopped b
stop_ends_example =
    stop_ends busy (tnd_result true ∷ []) busy-IsServed busy-Mirrors (tt, tt) (tt, tt)

relogin_replaces_example :
    let b = handle_dbus_request (new_request request_re_login) busy in
    (b.client ≡ some (new_client busy.channels busy.config second.ccache second.krb5conf))
    × (b.login ≡ some busy.channels)
    × (second.results < busy.channels)
    × (b.login_state ≡ LoginState.logged_out)
    × (b.logged_in ≡ false)
    × ((l : ℕ) (now : ℤ) → select b (login_result second.results l now) ≡ running b)
    × (select b (login_closed second.results) ≡ running b)
relogin_replaces_example =
    relogin_replaces busy second (new_request request_re_login) busy-IsServed busy_client refl

sleep_lasts_example : WhileRunning IsDormant (
    run
      (handle_sleep_event true busy)
      (dbus_request (new_request request_re_login) ∷ tnd_result false ∷ []))
sleep_lasts_example =
    sleep_lasts busy (dbus_request (new_request request_re_login) ∷ tnd_result false ∷ [])
      busy-IsServed (tt, (refl, tt))
