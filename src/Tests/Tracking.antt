-- ===== src/Tests/Tracking.antt =====
-- The agent and a D-Bus client together, at concrete histories.
use fw_id_agent.Prelude.{◌≡◌, refl, All, All-append, Bool, true, none, List, [], ◌∷◌, ◌++◌, map}
use fw_id_agent.Status.{Status, new}
use fw_id_agent.Dbusapi.Service as Service
use fw_id_agent.Dbusapi.Service.{
  Answers, start_updates, property_update, done, serve, completed, succeeded, method_error,
  re_login,
}
use fw_id_agent.DbusClient.Signal.{subscription, follows}
use fw_id_agent.Tracking.{Carries, updates_of, signal_of}
use fw_id_agent.Tracking.Shown.{Shows}
use fw_id_agent.Tracking.Histories.{client_tracks}
use fw_id_agent.Tracking.Typed.{Decodes, served_types}
use fw_id_agent.Agent.Reach.{IsProper}
use fw_id_agent.Agent.Loop as Loop
use fw_id_agent.Agent.Loop.{Event, agent_of, run}
use fw_id_agent.Tests.Data.{
  krb, tnd, settings, environment, notifier, started, started-Starts, morning,
}
use fw_id_agent.Tests.Agent.{busy, morning-IsProper, morning-busy}
use fw_id_agent.Tests.Bus.{bus}

abbrev pub carries : Carries bus
carries = record {
  variant = λ v. v;
  carries_string = λ s. refl;
  carries_uint32 = λ n. refl;
  carries_int64 = λ z. refl;
}

abbrev answers : Answers
answers = record {
  connect_error = none;
  name_error = none;
  is_primary_owner = true;
  methods_error = none;
  properties_error = none;
  introspection_error = none;
}

answers_up : (Service.start answers).0 ≡ none
unfolding Service.start
answers_up = refl

client_tracks_example :
    (sent : List (Status Bool)) × (t : Status Bool) × (subscription tnd bus new (
        map
          (signal_of tnd bus carries)
          ((Service.start answers).1 ++ serve (map property_update (updates_of busy.trace))))
      ≡ follows sent t)
    × Shows busy t
client_tracks_example =
    client_tracks tnd bus carries environment settings notifier started answers started-Starts
      answers_up morning morning-IsProper busy morning-busy new

-- The agent is stopped behind the morning.
abbrev until_noon : List (Event krb)
until_noon = morning ++ (Loop.done ∷ [])

served_types_example : All (Decodes tnd bus carries) (
    (Service.start answers).1
    ++ serve
        (map property_update (updates_of (agent_of (run started until_noon)).trace) ++ (done ∷ [])))
served_types_example =
    served_types tnd bus carries environment settings notifier started started-Starts until_noon
      (All-append IsProper morning Loop.done morning-IsProper tt) answers answers_up
