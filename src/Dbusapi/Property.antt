-- ===== src/Dbusapi/Property.antt =====
-- internal/dbusapi/service.go: the names of the D-Bus properties.
use fw_id_agent.Prelude.{String}

abbrev pub config : String
config = "Config"

abbrev pub trusted_network : String
trusted_network = "TrustedNetwork"

abbrev pub login_state : String
login_state = "LoginState"

abbrev pub last_keep_alive_at : String
last_keep_alive_at = "LastKeepAliveAt"

abbrev pub kerberos_tgt_start_time : String
kerberos_tgt_start_time = "KerberosTGTStartTime"

abbrev pub kerberos_tgt_end_time : String
kerberos_tgt_end_time = "KerberosTGTEndTime"
