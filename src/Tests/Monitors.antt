-- ===== src/Tests/Monitors.antt =====
-- The Kerberos monitors and the sleep monitor at concrete events.
use fw_id_agent.Prelude.{
  ℕ, zero, suc, String, str_eq, if◌then◌else◌, ◌≡◌, refl, Bool, true, false, ◌==◌, Option, none,
  some, List, [], ◌∷◌, map, length,
}
use fw_id_agent.Krbmon.Monitor.{Input, file_event, file_error, done, start}
use fw_id_agent.Krbmon.Files.{Loader, load_ccache}
use fw_id_agent.Krbmon.Start.{
  credential_cache_filename, filename_of, create_env_var, Watcher, start_ccache, start_conf,
}
use fw_id_agent.Krbmon.Starting.{Outcome, start_watches}
use fw_id_agent.Agent.State.{Agent}
use fw_id_agent.Agent.Loop.{run, running, sleep_event}
use fw_id_agent.Agent.Sleep.{IsDormant}
use fw_id_agent.Agent.SleepMon.{
  Signal, no_flag, prepare_for_sleep, announcement, handle_signal, listen,
}
use fw_id_agent.Handoff.{Link, Reach, input, hand_over, later}
use fw_id_agent.Agent.SleepMon.Sending.{sender, heard}
use fw_id_agent.Agent.Sleeping.{sleep_arrives}
use fw_id_agent.Tests.Data.{krb}
use fw_id_agent.Tests.Agent.{busy, busy-IsServed}

abbrev pub same : ℕ → Option ℕ → Bool
same a none = false
same a (some b) = a == b

-- A file holds the ccache whose number is its length.
abbrev pub loader : Loader krb
loader = record { unmarshal = λ b. some (length b); same_ccache = same; same_conf = same }

abbrev pub bytes : ℕ → List ℕ
bytes zero = []
bytes (suc n) = 0 ∷ bytes n

abbrev edits : List (Input (Option (List ℕ)))
edits =
    file_event "/tmp/krb5cc_1000" (some (bytes 70))
    ∷ file_error
    ∷ file_event "/tmp/krb5cc_1000" (some (bytes 80))
    ∷ done
    ∷ []

abbrev directory : String → String
directory file = if str_eq file "/etc/krb5.conf" then "/etc" else "/tmp"

-- Only /tmp can be watched.
abbrev watcher : Watcher
watcher = record {
  new_error = none;
  add_error = λ dir. if str_eq dir "/tmp" then none else some "no such directory";
}

unset-file : credential_cache_filename "" (some "1000") ≡ some "/tmp/krb5cc_1000"
unfolding credential_cache_filename filename_of create_env_var
unset-file = refl

start_watches_example :
    Outcome {F = Option (List ℕ)} none none edits
      (start same (load_ccache krb loader) "/tmp/krb5cc_1000" none edits)
      (start_ccache krb loader directory watcher "" (some "1000") none edits)
    × Outcome {F = Option ℕ} none
        (some "no such directory")
        (done ∷ [])
        (start same (λ o. o) "/etc/krb5.conf" (some 1) (done ∷ []))
        (start_conf krb loader directory watcher "/etc/krb5.conf" (some 1) (done ∷ []))
start_watches_example =
    start_watches krb loader directory watcher "" "/tmp/krb5cc_1000" "/etc/krb5.conf" (some "1000")
      unset-file none edits (some 1) (done ∷ [])

abbrev malformed : Signal
malformed = record { name = prepare_for_sleep; body = no_flag ∷ [] }

-- The agent has received the announcement, behind a signal that is ignored.
abbrev announced : Link (List Signal) Bool
announced = record {
  state = malformed ∷ announcement true ∷ [];
  pending = [];
  received = true ∷ [];
  stopped = false;
  leaving = false;
  closed = false;
}

announced-Reach : Reach sender [] announced
unfolding sender handle_signal listen
announced-Reach =
    later
      (later (later Reach.started (input (heard malformed) refl refl))
        (input (heard (announcement true)) refl refl))
      (hand_over true [] refl refl)

sleep_arrives_example :
    (b : Agent krb Bool) × (run busy (map sleep_event announced.received) ≡ running b) × IsDormant b
sleep_arrives_example =
    sleep_arrives busy busy-IsServed announced-Reach (malformed ∷ []) refl refl refl
