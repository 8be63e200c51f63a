-- ===== src/Tests/Service.antt =====
-- The D-Bus service and the start of the agent at concrete runs.
use fw_id_agent.Prelude.{
  String, ◌≤◌, ◌≡◌, ◌≢◌, ◌⊎◌, refl, Bool, true, Option, none, some, [], ◌∷◌, ◌++◌,
}
use fw_id_agent.Dbusapi.Property
use fw_id_agent.Dbusapi.{uint32}
use fw_id_agent.Dbusapi.Service.{Update, serve, stop_updates}
use fw_id_agent.Dbusapi.Serving.{
  updating, resetting, stopping, returned, Service, started_service, Step, take_update, set_must,
  take_done, begin, set_property, stop, later, here, more, Reach,
}
use fw_id_agent.Dbusapi.Serving.Sound.{inputs, pending}
use fw_id_agent.Dbusapi.Serving.Stopped.{IsQuiet, service_serves, service_settles}
use fw_id_agent.Agent.State.{Agent, tnd, new_agent}
use fw_id_agent.Agent.Start.{Environment, json_text, start}
use fw_id_agent.Agent.Startup.{
  parts, before_error, first_error, started_in, stopped_in, start_in_order,
}
use fw_id_agent.Tests.Data.{krb, settings, notifier}

abbrev network_update : Update
network_update = record { name = Property.trusted_network; value = uint32 2 }

-- The agent has set a property, and has then called `Stop`.
abbrev leaving : Service
leaving = record started_service {
  place = updating network_update;
  caller = stopping;
  done_closed = true;
}

leaving-reached : Reach (network_update ∷ []) true leaving
leaving-reached =
    stop (later (set_property network_update begin refl) (take_update network_update refl refl))
      refl

service_serves_example :
    (serve (inputs (network_update ∷ []) true)
      ≡ leaving.emitted ++ pending leaving.place leaving.caller)
    × ((leaving.caller ≢ returned)
        ⊎ ((pending leaving.place leaving.caller ≡ []) × (leaving.conn_closed ≡ true)))
service_serves_example = service_serves leaving-reached

abbrev resets : Service
resets = record leaving { place = resetting stop_updates; emitted = network_update ∷ [] }

service_settles_example : (2 ≤ 10) × (IsQuiet resets ⊎ ((k : Service) × Step resets k))
service_settles_example =
    service_settles leaving-reached
      (more (more here (set_must network_update refl)) (take_done refl refl))

-- The detection of network_update networks cannot be started.
abbrev no_detection : Environment Bool
no_detection = record {
  start_error = λ p. elim p [ tnd ↦ some "no interface" | _ ↦ none ];
  config_json = λ c. json_text "{}";
}

unfoldable begun : Option String × Agent krb Bool
unfolding start
begun = start no_detection (new_agent settings notifier)

start_in_order_example :
    (begun.0 ≡ first_error no_detection settings parts)
    × (started_in begun.1.trace ≡ before_error no_detection parts)
    × (stopped_in begun.1.trace ≡ [])
unfolding begun
start_in_order_example = start_in_order no_detection settings notifier begun.0 begun.1 refl
