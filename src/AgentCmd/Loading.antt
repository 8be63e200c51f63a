-- ===== src/AgentCmd/Loading.antt =====
-- pkg/config/config.go: `NewFromJSON` and `Load`.
use fw_id_agent.Prelude.{String, pos, false, none, []}
use fw_id_agent.Config.{Tnd, Config, default}
use fw_id_agent.DbusClient.Update.{Try, got, failed}
use fw_id_agent.AgentCmd.{Loaded, load_error}

-- `&Config{}`
abbrev pub zero_config : {C : Type 0} → Config C
zero_config = record {
  service_url = "";
  realm = "";
  keep_alive = pos 0;
  login_timeout = pos 0;
  logout_timeout = pos 0;
  retry_timer = pos 0;
  tnd = record { https_servers = []; config = none };
  verbose = false;
  start_delay = pos 0;
  notifications = false;
}

-- `os.ReadFile` and `json.Unmarshal` into a configuration are parameters.
module _ (T : Tnd) (unmarshal : String → Config T.Conf → Loaded T.Conf) where
  -- `NewFromJSON`
  unfoldable pub new_from_json : String → Loaded T.Conf
  new_from_json b = unmarshal b zero_config

  -- `Load`
  unfoldable pub load : (String → Try String) → String → Loaded T.Conf
  load read path = elim (read path) [
    | failed e ↦ load_error e
    | got file ↦ unmarshal file (default T)
  ]
