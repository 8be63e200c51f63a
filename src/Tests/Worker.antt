-- ===== src/Tests/Worker.antt =====
-- The goroutine of `Subscribe` at concrete runs.
use fw_id_agent.Prelude.{
  ℕ, ◌+◌, ◌≤◌, ◌≡◌, refl, Bool, true, some, List, [], ◌∷◌, ◌++◌, map, negsuc, arith,
}
use fw_id_agent.Status.{Status, new, copy}
use fw_id_agent.Dbusapi.{Value, uint32}
use fw_id_agent.DbusClient.Update.{got, apply_all, decode, update_status}
use fw_id_agent.DbusClient.Query.{query}
use fw_id_agent.DbusClient.Signal.{
  Signal, updated, handle_properties_changed, invalidate, follows, subscription,
}
use fw_id_agent.DbusClient.Signal.Following.{Updates}
use fw_id_agent.DbusClient.Worker.{
  Link, waiting, sending, over, begin, after, Step, hand_over, read, close_conn, close_done, Reach,
  started, arrives, later, Run, here, more,
}
use fw_id_agent.DbusClient.Worker.Taken.{Owes}
use fw_id_agent.DbusClient.Worker.Received.{IsAlive, reader_receives}
use fw_id_agent.DbusClient.Worker.Ending.{close_returns}
use fw_id_agent.Tracking.{updates_of, signal_of}
use fw_id_agent.Tests.Data as Data
use fw_id_agent.Tests.Data.{tnd, environment, notifier, settings, started-Starts}
use fw_id_agent.Tests.Bus.{bus, signals}
use fw_id_agent.Tests.Tracking.{carries}
use fw_id_agent.Tests.Joining.{late, answer}

-- Two signals have arrived and the connection and `done` are closed before a status is received.
abbrev closing : Link Value Bool
closing = record (begin tnd bus new) { signals = signals; conn_closed = true; done_closed = true }

closing-reached : Reach tnd bus new signals closing
closing-reached =
    later
      (later (arrives _ (arrives _ started refl (omega arith)) refl (omega arith))
        (close_conn refl))
      (close_done refl refl)

reader_receives_example :
    (taken : List (Signal Value)) × (us missing : List (Status Bool)) × IsAlive tnd bus
      closing.place
    × (taken ++ closing.signals ≡ signals)
    × Updates tnd bus taken new us
    × (subscription tnd bus new taken ≡ follows (copy tnd new ∷ us) closing.status)
    × (copy tnd new ∷ us ≡ closing.received ++ missing)
    × Owes tnd bus closing.place closing.done_closed missing
reader_receives_example = reader_receives tnd bus (tt, (tt, tt)) closing-reached

-- It takes the first status, and then the goroutine ends at the first signal's update.
abbrev first_read : Link Value Bool
first_read = record closing { place = waiting; received = copy tnd new ∷ [] }

close_returns_example :
    (1 ≤ 23)
    × ((j : ℕ) × (last : Link Value Bool) × Run tnd bus first_read j last
        × (1 + j ≤ 23)
        × (last.place ≡ over)
        × (last.received ≡ first_read.received))
close_returns_example =
    close_returns tnd bus (tt, (tt, tt)) closing-reached refl
      (more here (hand_over (copy tnd new) refl))

-- What a client gets that asks an agent that has just started.
abbrev pub asked : Status Bool
asked = record {
  config = some settings;
  trusted_network = 1;
  login_state = 1;
  last_keep_alive = negsuc 0;
  kerberos_tgt = record { start_time = negsuc 0; end_time = negsuc 0 };
}

pub asked-answers :
    query bus (got (answer Data.started.trace, answer Data.started.trace)) ≡ got asked
unfolding query Data.started update_status apply_all decode
asked-answers = refl

abbrev pub network_signal : Signal Value
network_signal = signal_of tnd bus carries (record { name = "TrustedNetwork"; value = uint32 2 })

abbrev pub trusted_status : Status Bool
trusted_status = record asked { trusted_network = 2 }

network_signal-updates :
    handle_properties_changed bus network_signal (copy tnd asked) ≡ updated trusted_status
unfolding handle_properties_changed update_status apply_all decode invalidate
network_signal-updates = refl

abbrev notified : Link Value Bool
notified = record (begin tnd bus asked) {
  place = waiting;
  signals = network_signal ∷ [];
  received = copy tnd asked ∷ [];
}

abbrev updating : Link Value Bool
updating = record notified {
  place = sending trusted_status;
  status = copy tnd trusted_status;
  signals = [];
}

abbrev pub idle : Link Value Bool
idle = record updating { place = waiting; received = copy tnd asked ∷ trusted_status ∷ [] }

notified-updating : Step tnd bus notified updating
unfolding handle_properties_changed update_status apply_all decode invalidate after
notified-updating = read network_signal [] refl refl

pub idle-reached : Reach tnd bus asked (map (signal_of tnd bus carries) (updates_of late)) idle
idle-reached =
    later
      (later
        (later (arrives network_signal started refl (omega arith))
          (hand_over (copy tnd asked) refl))
        notified-updating)
      (hand_over trusted_status refl)
