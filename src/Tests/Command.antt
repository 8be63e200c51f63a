-- ===== src/Tests/Command.antt =====
-- The command line of the agent at concrete flags.
use fw_id_agent.Prelude.{String, ◌≡◌, refl, Bool, false, none, some, pos, [], ◌∷◌, map}
use text.Mathlib.TextBridge.{of_list}
use fw_id_agent.Config.{Config, valid}
use fw_id_agent.AgentCmd.{
  Flags, configured, Loaded, loaded, parse_tnd_servers, check, configure, get_config,
}
use fw_id_agent.AgentCmd.Servers.{Written, write_all, server, parse-written}
use fw_id_agent.Tests.Data.{tnd, settings}

abbrev first : Written
first = record {
  url = "u" ∷ ":" ∷ "1" ∷ [];
  first = "a";
  others = "b" ∷ [];
  url_lacks = (refl, (refl, (refl, tt)));
  hash_lacks = (refl, (refl, tt));
  hash_plain = (refl, (refl, tt));
}

abbrev pub lower : String → String
lower s = s

parse-written_example :
    parse_tnd_servers lower (of_list (write_all lower first (first ∷ [])))
    ≡ some (map (server lower) (first ∷ first ∷ []))
parse-written_example = parse-written lower first (first ∷ [])

abbrev flags : Flags
flags = record {
  config_file = some "/etc/fw-id-agent.json";
  version = false;
  service_url = none;
  realm = none;
  keep_alive = some (pos 7);
  login_timeout = none;
  logout_timeout = none;
  retry_timer = none;
  tnd_servers = none;
  verbose = none;
  start_delay = none;
  notifications = some false;
}

abbrev pub load : String → Loaded Bool
load file = loaded settings

abbrev result : Config Bool
result = record settings { keep_alive = pos 7; notifications = false }

flags-result : get_config tnd lower load flags ≡ configured result
unfolding get_config configure check valid
flags-result = refl
