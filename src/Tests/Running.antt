-- ===== src/Tests/Running.antt =====
-- The agent's command at concrete arguments and events.
use fw_id_agent.Prelude.{
  ℤ, pos, String, ◌≡◌, refl, str_eq, Bool, true, false, Option, none, some, List, [], ◌∷◌, ◌++◌,
  if◌then◌else◌,
}
use fw_id_agent.Agent.State.{Agent}
use fw_id_agent.Agent.Loop.{tnd_closed, returned, running, run}
use fw_id_agent.Agent.Shutdown.{IsValue, IsStopped}
use fw_id_agent.Config.{Config, valid, default}
use fw_id_agent.Flags.{parse, parse_from, parse_bool}
use fw_id_agent.DbusClient.Update.{Try, got}
use fw_id_agent.AgentCmd.{configured, Loaded, loaded, get_config, configure, check}
use fw_id_agent.AgentCmd.Precedence.{IsOverlay}
use fw_id_agent.AgentCmd.Loading.{load as load_file}
use fw_id_agent.AgentCmd.Layers.{Document, fill, settings_layered}
use fw_id_agent.AgentCmd.Arguments.{
  config_file, service_url, keep_alive, notifications, unset, config_from,
}
use fw_id_agent.AgentCmd.Written.{
  write_all, Written, text, int, bool, given_flags, config_from-write_all,
}
use fw_id_agent.AgentCmd.Lifecycle.{waits, stopped}
use fw_id_agent.AgentCmd.Ending.{Comes, IsAbandoned, run_ends}
use fw_id_agent.Prelude.{All}
use fw_id_agent.Tests.Data.{
  server, krb, tnd, settings, environment, notifier, started, started-Starts, morning,
}
use fw_id_agent.Tests.Agent.{execute, busy, morning-IsProper}
use fw_id_agent.Tests.Command.{lower, load}

abbrev parse_seven : String → Option ℤ
parse_seven v = if str_eq v "0x7" then some (pos 7) else none

abbrev written : List Written
written =
    text config_file "-notifications"
    ∷ int keep_alive "0x7" (pos 7)
    ∷ bool notifications false
    ∷ text service_url ""
    ∷ []

config_from-write_all_example :
    config_from parse_seven tnd lower load (
      "-config" ∷ "-notifications" ∷ "-keepalive" ∷ "0x7" ∷ "--notifications=false" ∷ "-serviceurl"
      ∷ "" ∷ [])
    ≡ get_config tnd lower load (given_flags written unset)
config_from-write_all_example =
    config_from-write_all parse_seven tnd lower load written (tt, (refl, (tt, (tt, tt))))

morning-IsValue : All IsValue morning
morning-IsValue = (tt, (tt, (tt, (tt, (tt, (tt, (tt, tt)))))))

run_ends_example :
    let Reaches = Comes environment notifier settings started started-Starts in
    (b c d : Agent krb Bool) × (run started morning ≡ running b)
    × Reaches true morning morning (stopped none (returned c))
    × IsStopped c
    × Reaches false
        (morning ++ (tnd_closed ∷ []))
        []
        (stopped (some "Agent TND results channel closed") (returned d))
    × IsAbandoned environment notifier settings started started-Starts b d
    × Reaches false morning [] (waits b)
run_ends_example =
    run_ends environment notifier settings started started-Starts morning morning tnd_closed
      "Agent TND results channel closed" morning-IsProper morning-IsValue morning-IsProper
      morning-IsValue refl

busy_logged_in : (busy.logged_in ≡ true) × (busy.notifier ≡ notifier)
unfolding execute
busy_logged_in = (refl, refl)

busy_notifies : busy.config.notifications ≡ true
unfolding execute
busy_notifies = refl

-- The file names a service URL, a realm, a keep-alive and a server.
abbrev document : Document Bool
document = record {
  service_url = some "https://myservice.mycompany.com:443";
  realm = some "MYKERBEROSREALM.COM";
  keep_alive = some (pos 9);
  login_timeout = none;
  logout_timeout = none;
  retry_timer = none;
  https_servers = some (server ∷ []);
  tnd_config = λ o. o;
  verbose = none;
  start_delay = none;
  notifications = none;
}

abbrev filling : String → Config Bool → Loaded Bool
filling s c = loaded (fill document c)

abbrev reading : String → Try String
reading path = got "{...}"

abbrev short : List Written
short =
    text config_file "/etc/fw-id-agent.json"
    ∷ int keep_alive "0x7" (pos 7)
    ∷ bool notifications false
    ∷ []

abbrev layered : Config Bool
layered = record (fill document (default tnd)) { keep_alive = pos 7; notifications = false }

layered-configured :
    config_from parse_seven tnd lower (load_file tnd filling reading) (write_all short)
    ≡ configured layered
unfolding config_from parse parse_from parse_bool get_config configure check valid load_file
layered-configured = refl

settings_layered_example :
    (valid tnd (some layered) ≡ true)
    × IsOverlay tnd lower
        (load_file tnd filling reading)
        (given_flags short unset)
        (fill document (default tnd))
        layered
settings_layered_example =
    settings_layered tnd filling parse_seven lower reading short (tt, (refl, (tt, tt)))
      "/etc/fw-id-agent.json" "{...}" refl refl document (λ c. refl) layered layered-configured
