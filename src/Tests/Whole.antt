-- ===== src/Tests/Whole.antt =====
-- The whole way of a status at a concrete run.
use fw_id_agent.Prelude.{◌≡◌, refl, Bool, true, false, map, arith, pos, negsuc, List, [], ◌∷◌, ◌++◌}
use fw_id_agent.Status.{Status, new, copy}
use fw_id_agent.Dbusapi.{Value, text, uint32}
use fw_id_agent.Dbusapi.Service.{Update, stop_updates}
use fw_id_agent.Dbusapi.Serving.{
  Service, started_service, over, returned, stop, take_done, reset, leave, return, Reach, begin,
  set_property, later, take_update, set_must,
}
use fw_id_agent.DbusClient.Signal.{Signal, handle_properties_changed, invalidate}
use fw_id_agent.DbusClient.Update.{update_status, apply_all, decode}
use fw_id_agent.DbusClient.Worker as Worker
use fw_id_agent.DbusClient.Worker.{Link, waiting, arrives, hand_over, read, after}
use fw_id_agent.Tracking.{updates_of, signal_of}
use fw_id_agent.Tracking.Shown.{Shows}
use fw_id_agent.Tracking.EndToEnd.{reader_follows, reader_resets}
use fw_id_agent.Tracking.Histories.{farewell}
use fw_id_agent.Tests.Data.{tnd, environment, notifier, settings, started, started-Starts}
use fw_id_agent.Tests.Agent.{execute}
use fw_id_agent.Tests.Bus.{bus}
use fw_id_agent.Tests.Tracking.{carries}
use fw_id_agent.Tests.Joining.{
  arrival, trusting, late, trusting-late, arrival-running, nothing-running, started-readable,
  answer, answered,
}
use fw_id_agent.Tests.Worker.{asked, asked-answers, idle, idle-reached}

-- A service that waits, when it has emitted some updates.
abbrev calm : List Update → Service
calm us = record started_service { emitted = us }

one_more :
    (us : List Update) (u : Update)
    → Reach us false (calm us)
    → Reach (us ++ (u ∷ [])) false (calm (us ++ (u ∷ [])))
one_more us u r = later (later (set_property u r refl) (take_update u refl refl)) (set_must u refl)

abbrev first_updates : List Update
first_updates =
    record { name = "TrustedNetwork"; value = uint32 1 }
    ∷ record { name = "LoginState"; value = uint32 1 }
    ∷ record { name = "Config"; value = text "{}" }
    ∷ []

abbrev late_update : Update
late_update = record { name = "TrustedNetwork"; value = uint32 2 }

trusting-served :
    Reach (updates_of trusting.trace) false (calm (first_updates ++ (late_update ∷ [])))
unfolding execute
trusting-served = one_more _ _ (one_more _ _ (one_more _ _ (one_more _ _ begin)))

started-emitted :
    first_updates ++ (late_update ∷ []) ≡ updates_of started.trace ++ (late_update ∷ [])
unfolding started
started-emitted = refl

reader_follows_example :
    (x : Status Bool) × (xs : List (Status Bool)) × (idle.received ≡ xs ++ (x ∷ []))
    × Shows trusting x
reader_follows_example =
    reader_follows tnd bus carries environment settings notifier started started-Starts [] arrival
      tt (tt, tt) started trusting nothing-running arrival-running late trusting-late
      started-readable (answer started.trace) (answer started.trace) (answered started.trace) asked
      asked-answers (calm (first_updates ++ (late_update ∷ []))) (late_update ∷ []) trusting-served
      refl refl started-emitted idle idle-reached refl refl

-- The service is stopped without any call of `SetProperty`.
abbrev stopped : Service
stopped = record {
  place = over;
  caller = returned;
  emitted = stop_updates;
  conn_closed = true;
  done_closed = true;
  closed = true;
}

stopped-reached : Reach [] true stopped
stopped-reached =
    later
      (later
        (later
          (later
            (later
              (later
                (later (later (later (stop begin refl) (take_done refl refl)) (reset _ _ refl))
                  (reset _ _ refl))
                (reset _ _ refl))
              (reset _ _ refl))
            (reset _ _ refl))
          (reset _ _ refl))
        (leave refl))
      (return refl refl)

-- The client has read the signals of these updates.
abbrev six : List (Signal Value)
six = map (signal_of tnd bus carries) stop_updates

abbrev held : List (Signal Value) → Link Value Bool
held ss = record (Worker.begin tnd bus new) {
  place = waiting;
  signals = ss;
  received = copy tnd new ∷ [];
}

six-arrive : Worker.Reach tnd bus new six (held six)
six-arrive =
    Worker.later
      (arrives _
        (arrives _
          (arrives _
            (arrives _ (arrives _ (arrives _ Worker.started refl (omega arith)) refl (omega arith))
              refl (omega arith))
            refl (omega arith))
          refl (omega arith))
        refl (omega arith))
      (hand_over _ refl)

abbrev no_time : Status Bool
no_time = record new { last_keep_alive = negsuc 0 }

abbrev no_start : Status Bool
no_start = record no_time { kerberos_tgt = record { start_time = negsuc 0; end_time = pos 0 } }

abbrev reset_link : Link Value Bool
reset_link = record (held []) {
  status = farewell tnd bus carries;
  received = new ∷ new ∷ new ∷ new ∷ no_time ∷ no_start ∷ farewell tnd bus carries ∷ [];
}

-- One signal is read and its update is handed over.
six-read : Worker.Reach tnd bus new six reset_link
unfolding handle_properties_changed update_status apply_all decode invalidate after
six-read =
    Worker.later
      (Worker.later
        (Worker.later
          (Worker.later
            (Worker.later
              (Worker.later
                (Worker.later
                  (Worker.later
                    (Worker.later
                      (Worker.later
                        (Worker.later (Worker.later six-arrive (read _ _ refl refl))
                          (hand_over _ refl))
                        (read _ _ refl refl))
                      (hand_over _ refl))
                    (read _ _ refl refl))
                  (hand_over _ refl))
                (read _ _ refl refl))
              (hand_over _ refl))
            (read _ _ refl refl))
          (hand_over _ refl))
        (read _ _ refl refl))
      (hand_over _ refl)

reader_resets_example :
    (xs : List (Status Bool)) × (reset_link.received ≡ xs ++ (farewell tnd bus carries ∷ []))
reader_resets_example =
    reader_resets tnd bus carries [] [] new stopped stop_updates stopped-reached refl refl
      reset_link six-read refl refl
