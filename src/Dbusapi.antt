-- ===== src/Dbusapi.antt =====
-- internal/dbusapi/service.go: the names and values of the D-Bus properties, and the request that a
-- method call of a D-Bus client becomes.
pub mod Property
pub mod Service
pub mod Serving
use fw_id_agent.Prelude.{ℕ, ℤ, negsuc, String, Bool, true, false, Option, none, some, ◌<>◌}

abbrev pub path : String
path = "/com/telekom_mms/fw_id_agent/Agent"

abbrev pub interface : String
interface = "com.telekom_mms.fw_id_agent.Agent"

abbrev pub config_invalid : String
config_invalid = ""

abbrev pub last_keep_alive_at_invalid : ℤ
last_keep_alive_at_invalid = negsuc 0

abbrev pub kerberos_tgt_start_time_invalid : ℤ
kerberos_tgt_start_time_invalid = negsuc 0

abbrev pub kerberos_tgt_end_time_invalid : ℤ
kerberos_tgt_end_time_invalid = negsuc 0

-- What is passed as `any` to `SetProperty`: a string, a uint32 or an int64.
pub data Value : Type 0 where
  text : String → Value
  uint32 : ℕ → Value
  int64 : ℤ → Value

abbrev pub request_re_login : String
request_re_login = "ReLogin"

-- `Request`: its parameters and results are never used. `closed` says whether `wait` is closed.
pub record Request : Type 0 where
  pub name : String
  pub error : Option String
  pub closed : Bool

-- `NewRequest`
abbrev pub new_request : String → Request
new_request name = record { name = name; error = none; closed = false }

-- `Request.Close`
abbrev pub close : Request → Request
close r = record r { closed = true }
