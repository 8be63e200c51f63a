-- ===== src/Dbusapi/Service.antt =====
-- internal/dbusapi/service.go: the service, as the calls of `SetMust` that it makes on its
-- exported properties, and the method `ReLogin`.
use fw_id_agent.Prelude.{String, ◌<>◌, Bool, Option, none, some, List, [], ◌∷◌, if◌then◌else◌}
use fw_id_agent.Status.TrustedNetwork
use fw_id_agent.Status.LoginState
use fw_id_agent.Dbusapi.Property
use fw_id_agent.Dbusapi.{
  Value, text, uint32, int64, interface, config_invalid, last_keep_alive_at_invalid,
  kerberos_tgt_start_time_invalid, kerberos_tgt_end_time_invalid, Request, request_re_login,
  new_request,
}

-- `props.SetMust(Interface, name, value)` and `propertyUpdate`.
pub record Update : Type 0 where
  pub name : String
  pub value : Value

-- The calls that end `Start`, in their order. The states of package dbusapi have the numbers of those
-- of package status.
abbrev pub start_updates : List Update
start_updates =
    record { name = Property.config; value = text config_invalid }
    ∷ record { name = Property.trusted_network; value = uint32 TrustedNetwork.not_trusted }
    ∷ record { name = Property.login_state; value = uint32 LoginState.logged_out }
    ∷ record { name = Property.last_keep_alive_at; value = int64 last_keep_alive_at_invalid }
    ∷ record {
      name = Property.kerberos_tgt_start_time;
      value = int64 kerberos_tgt_start_time_invalid;
    }
    ∷ record { name = Property.kerberos_tgt_end_time; value = int64 kerberos_tgt_end_time_invalid }
    ∷ []

-- The calls of the main loop when the service is stopped, in their order.
abbrev pub stop_updates : List Update
stop_updates =
    record { name = Property.config; value = text config_invalid }
    ∷ record { name = Property.trusted_network; value = uint32 TrustedNetwork.unknown }
    ∷ record { name = Property.login_state; value = uint32 LoginState.unknown }
    ∷ record { name = Property.last_keep_alive_at; value = int64 last_keep_alive_at_invalid }
    ∷ record {
      name = Property.kerberos_tgt_start_time;
      value = int64 kerberos_tgt_start_time_invalid;
    }
    ∷ record { name = Property.kerberos_tgt_end_time; value = int64 kerberos_tgt_end_time_invalid }
    ∷ []

-- What the D-Bus library answers while the service starts: the errors of its calls, and whether the
-- name now belongs to the service alone.
pub record Answers : Type 0 where
  pub connect_error : Option String
  pub name_error : Option String
  pub is_primary_owner : Bool
  pub methods_error : Option String
  pub properties_error : Option String
  pub introspection_error : Option String

-- Return the error, or go on.
abbrev checked : Option String → String → Option String × List Update → Option String × List Update
checked none message k = k
checked (some e) message k = (some (message <> e), [])

-- `Service.Start`: its error, and the calls of `SetMust`.
unfoldable pub start : Answers → Option String × List Update
start w = checked w.connect_error "could not connect to D-Bus session bus: " (
    checked w.name_error "could not request D-Bus name: " (
      if w.is_primary_owner
      then checked w.methods_error "could not export D-Bus methods: " (
          checked w.properties_error "could not export D-Bus properties spec: " (
            checked w.introspection_error "could not export D-Bus introspection: "
              (none, start_updates)))
      else (some "requested D-Bus name is already taken", [])))

-- What the main loop takes: a property update, or the closing of `done`.
pub data Input : Type 0 where
  property_update : Update → Input
  done : Input

-- The main loop `start` over what it takes: the calls of `SetMust`. It returns on `done`.
unfoldable pub serve : List Input → List Update
serve [] = []
serve (property_update u ∷ is) = u ∷ serve is
serve (done ∷ is) = stop_updates

-- How the call of a method ends: with no error, or with a `dbus.Error` of a name and a message.
pub data MethodResult : Type 0 where
  succeeded : MethodResult
  method_error : String → String → MethodResult

-- How the request fares: `done` is closed before the agent takes it or before the agent completes
-- it, or the agent completes it.
pub data Fate : Type 0 where
  not_taken : Fate
  aborted : Fate
  completed : (Request → Request) → Fate

-- `Request.Wait`, with the request as the agent leaves it.
abbrev pub wait : Fate → Request → Request
wait (completed f) r = f r
wait aborted r = record r { error = some "Request aborted" }
wait not_taken r = r

abbrev result_of : Request → MethodResult
result_of r = elim r.error [
  | some e ↦ method_error (interface <> ".ReLoginAborted") e
  | none ↦ succeeded
]

-- `agent.ReLogin`
unfoldable pub re_login : Fate → MethodResult
re_login not_taken = method_error (interface <> ".ReLoginAborted") "ReLogin aborted"
re_login fate = result_of (wait fate (new_request request_re_login))
