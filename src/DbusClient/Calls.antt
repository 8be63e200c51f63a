-- ===== src/DbusClient/Calls.antt =====
-- pkg/client/client.go: `Ping` and `ReLogin`, single calls of a method of the agent's D-Bus object.
use fw_id_agent.Prelude.{String, Option, none, some}
use fw_id_agent.Dbusapi.Service.{MethodResult, succeeded, method_error}

-- What the D-Bus library makes of a call: the text of a `dbus.Error` of a name and a message, and the
-- error of a call that does not reach the agent.
pub record Caller : Type 0 where
  pub error_text : String → String → String
  pub call_error : Option String

-- The error of `Call`, over what the method returns.
abbrev pub call : Caller → MethodResult → Option String
call w m = elim w.call_error [
  | some e ↦ some e
  | none ↦ elim m [
    | succeeded ↦ none
    | method_error name message ↦ some (w.error_text name message)
  ]
]

-- `DBusClient.Ping`: the method `Ping` of the D-Bus library answers in every process that has one.
abbrev pub ping : Caller → Option String
ping w = call w succeeded

-- `DBusClient.ReLogin`, over what the method `ReLogin` of the agent returns.
unfoldable pub re_login : Caller → MethodResult → Option String
re_login w m = call w m
