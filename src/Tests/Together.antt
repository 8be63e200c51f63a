-- ===== src/Tests/Together.antt =====
-- The agent and the goroutines that hand it values, at concrete interleavings.
use fw_id_agent.Prelude.{
  String, ◌<>◌, ℕ, ◌+◌, ◌*◌, ◌≤◌, ◌≡◌, ◌≢◌, ◌⊎◌, ◌↔◌, refl, Bool, true, false, Option, none, some,
  List, [], ◌∷◌, ◌++◌, pos, arith, All,
}
use fw_id_agent.Status.LoginState
use fw_id_agent.Dbusapi.Property
use fw_id_agent.Dbusapi.{uint32}
use fw_id_agent.Handoff.{Link, Reach, begin, input, hand_over, give_up, stop, later}
use fw_id_agent.Handoff.Stopping.{Run, here, more}
use fw_id_agent.LoginClient.Request.{Remote, Reads, do_service_request}
use fw_id_agent.LoginClient.Session.{login, Session, new_session, on_done}
use fw_id_agent.LoginClient.Rounds.{rounds, Logins}
use fw_id_agent.LoginClient.Sending.{sender, agent_receives, stop_returns}
use fw_id_agent.Krbmon.Sending as Monitors
use fw_id_agent.Krbmon.Monitor.{Monitor, start}
use fw_id_agent.Krbmon.Files.{load_ccache}
use fw_id_agent.Krbmon.Updates.{IsSteady}
use fw_id_agent.Agent.State.{Agent, latest}
use fw_id_agent.Agent.Loop.{
  Event, Loop, running, returned, next, run, ccache_update, krbcfg_update, tnd_result, login_result,
  dbus_request, select, agent_of,
}
use fw_id_agent.Dbusapi.{close}
use fw_id_agent.Dbusapi.Service.{succeeded, method_error, completed, re_login}
use fw_id_agent.Agent.Handlers.{start_client, stop_client}
use fw_id_agent.Agent.Calls.{
  Calls, offering, called, elsewhere, take, answer, answered, asked, Answer,
}
use fw_id_agent.Status.{new}
use fw_id_agent.DbusClient.Update.{got, failed}
use fw_id_agent.DbusClient.Calls.{Caller, re_login as call_re_login}
use fw_id_agent.Cli.Parsing.{initial}
use fw_id_agent.Cli.Commands as Cli
use fw_id_agent.Cli.Commands.{Client, Ran, finished, run as run_cli}
use fw_id_agent.Tracking.Command.{LoggedInAgain, relogin_ends}
use fw_id_agent.Tests.CommandLine.{format}
use fw_id_agent.Agent.Joint.{Joint, started as begun, kept, replaced, tried, told, taken, fired}
use fw_id_agent.Agent.Joint.Shown.{Accepted}
use fw_id_agent.Agent.Joint.Displayed.{login_shown}
use fw_id_agent.Tests.Data.{krb, settings, environment, notifier, started, started-Starts, morning}
use fw_id_agent.Tests.Login.{client, reads, friendly, silent}
use fw_id_agent.Tests.Agent.{execute, busy, morning-IsProper, morning-busy}
use fw_id_agent.Agent.Reach.{IsProper}
use fw_id_agent.Tests.Monitors.{same, loader, bytes}

-- The client has been started.
abbrev fresh : Link (Session krb Bool) ℕ
fresh = begin sender (new_session client)

-- Its first login has been tried with a service that accepts it.
abbrev trying : Link (Session krb Bool) ℕ
trying = fired fresh friendly reads

-- Both results were handed over.
abbrev settled : Link (Session krb Bool) ℕ
settled =
    taken (taken trying LoginState.logging_in (LoginState.logged_in ∷ [])) LoginState.logged_in []

fresh-pending : fresh.pending ≡ []
unfolding sender
fresh-pending = refl

trying-pending : trying.pending ≡ LoginState.logging_in ∷ LoginState.logged_in ∷ []
unfolding login do_service_request
trying-pending = refl

trying-Reach : Reach sender (new_session client) trying
unfolding sender
trying-Reach = later Reach.started (input (friendly, reads) fresh-pending refl)

settled-Reach : Reach sender (new_session client) settled
settled-Reach =
    later (later trying-Reach (hand_over _ _ trying-pending refl)) (hand_over _ _ refl refl)

agent_receives_example :
    (ws : List (Remote krb × Reads krb)) × (rest : List ℕ) × ((rounds (new_session client) ws).sent
      ≡ (LoginState.logging_in ∷ LoginState.logged_in ∷ []) ++ rest)
    × Logins ((LoginState.logging_in ∷ LoginState.logged_in ∷ []) ++ rest)
    × All (λ r. r ≢ LoginState.logging_out) (LoginState.logging_in ∷ LoginState.logged_in ∷ [])
    × ((settled.stopped ≡ true) ⊎ (rest ≡ settled.pending))
agent_receives_example = agent_receives client settled-Reach

-- The agent stops the client, which has still both results to send and gives up the first.
abbrev stopped : Link (Session krb Bool) ℕ
stopped = record trying { stopped = true }

abbrev giving_up : Link (Session krb Bool) ℕ
giving_up = record stopped { pending = LoginState.logged_in ∷ [] }

stopped-Reach : Reach sender (new_session client) stopped
stopped-Reach = later trying-Reach (stop refl)

giving_up-Run : Run sender stopped 1 0 giving_up
giving_up-Run = more here (give_up _ _ trying-pending refl)

stop_returns_example :
    (1 ≤ 6 + 0 * 3)
    × ((j : ℕ) × (last : Link (Session krb Bool) ℕ) × Run sender giving_up j 0 last
        × (j ≤ 6)
        × (last.closed ≡ true)
        × ((ws : List (Remote krb × Reads krb)) × (now : Remote krb × Reads krb) × (last.state
              ≡ on_done (rounds (new_session client) ws) now.0 now.1)))
stop_returns_example = stop_returns client silent reads stopped-Reach refl giving_up-Run

abbrev load : Option (List ℕ) → Option ℕ
load = load_ccache krb loader

abbrev watching : Monitor ℕ
watching = start same load "/tmp/krb5cc_1000" (some (bytes 70)) []

-- The monitor has sent its first ccache.
abbrev delivered : Link (Monitor ℕ) ℕ
delivered = record (begin (Monitors.sender same load) watching) { pending = []; received = 70 ∷ [] }

watching-sent : (begin (Monitors.sender same load) watching).pending ≡ 70 ∷ []
unfolding Monitors.sender start load_ccache
watching-sent = refl

delivered-Reach : Reach (Monitors.sender same load) watching delivered
delivered-Reach = later Reach.started (hand_over 70 [] watching-sent refl)

monitor_receives_example :
    IsSteady same load delivered.state
    × ((rest : List ℕ) × (delivered.state.sent ≡ (70 ∷ []) ++ rest)
        × ((delivered.stopped ≡ true) ⊎ (rest ≡ [])))
monitor_receives_example =
    Monitors.monitor_receives same load "/tmp/krb5cc_1000" (some (bytes 70)) delivered-Reach

-- Kerberos comes up, and the network is found trusted.
abbrev with_ccache : Agent krb Bool
with_ccache = agent_of (select started (ccache_update (record { ccache = some 40 })))

abbrev with_conf : Agent krb Bool
with_conf = agent_of (select with_ccache (krbcfg_update (record { config = some 1 })))

abbrev with_client : Agent krb Bool
with_client = agent_of (select with_conf (tnd_result true))

abbrev logging_in : Agent krb Bool
logging_in = agent_of (select with_client (login_result 0 LoginState.logging_in (pos 0)))

abbrev logged_in : Agent krb Bool
logged_in = agent_of (select logging_in (login_result 0 LoginState.logged_in (pos 1000)))

waiting-Joint : Joint started with_conf none []
unfolding execute
waiting-Joint =
    kept (krbcfg_update (record { config = some 1 }))
      (kept (ccache_update (record { ccache = some 40 })) begun tt refl refl refl) tt refl refl refl

client-Joint : Joint started with_client (some fresh) []
unfolding execute
client-Joint = replaced (tnd_result true) waiting-Joint tt tt refl (ground arith)

logged_in-Joint :
    Joint started logged_in
      (some settled)
      (record { client = client; remote = friendly; reads = reads } ∷ [])
unfolding execute sender
logged_in-Joint =
    told 0 LoginState.logged_in (pos 1000) []
      (told 0 LoginState.logging_in (pos 0) (LoginState.logged_in ∷ [])
        (tried friendly reads client-Joint fresh-pending) trying-pending refl refl)
      refl refl refl

login_shown_example :
    ((latest Property.login_state logged_in.trace ≡ some (uint32 LoginState.logged_in))
      ↔ Accepted (record { client = client; remote = friendly; reads = reads } ∷ []))
    × ((latest Property.login_state logged_in.trace ≡ some (uint32 LoginState.logged_in))
        ⊎ (latest Property.login_state logged_in.trace ≡ some (uint32 LoginState.logged_out)))
login_shown_example = login_shown environment settings notifier started-Starts logged_in-Joint refl

module _ {first a : Agent krb Bool} where
  offered-next :
      (es : List (Event krb)) (l : Loop krb Bool)
      → Calls first l offering false
      → next l (λ b. run b es) ≡ running a
      → ((b : Agent krb Bool)
          → Calls first (running b) offering false
          → run b es ≡ running a
          → Calls first (running a) offering false)
      → Calls first (running a) offering false
  offered-next es (running b) k h rest = rest b k h
  offered-next es (returned b) k h rest = absurd (ground arith)

  -- The agent goes on while the request is offered.
  offered-run :
      (es : List (Event krb)) (b : Agent krb Bool)
      → Calls first (running b) offering false
      → All IsProper es
      → run b es ≡ running a
      → Calls first (running a) offering false
  unfolding run
  offered-run [] b k p h = rw h at k
  offered-run (e ∷ es) b k p h =
      offered-next es (select b e) (elsewhere e p.0 k) h (λ c k' h'. offered-run es c k' p.1 h')

-- A call of `ReLogin` that the agent takes when it is logged in and its network is trusted.
relogin_call :
    Calls started
      (select busy (dbus_request asked))
      (answered (re_login (completed (λ _. close asked))))
      false
unfolding execute
relogin_call = answer (
    take {before = (start_client (stop_client busy)).trace}
      (offered-run morning started called morning-IsProper morning-busy) refl)

-- The D-Bus library gives the message of an error.
abbrev caller : Caller
caller = record { error_text = λ name message. message; call_error = none }

abbrev commander : Client Bool
commander = record { query = got new; re_login = none; subscribe = failed "closed" }

relogin_ends_example :
    (r : Ran) × (run_cli format "1.0" ("relogin" ∷ []) initial (got commander) ≡ finished r)
    × (r.calls ≡ Cli.re_login ∷ Cli.close ∷ [])
    × (r.written.outputs ≡ [])
    × (((r.written.error ≡ none) × (succeeded ≡ succeeded) × LoggedInAgain started)
        ⊎ ((name : String) × (message : String) × (r.written.error
              ≡ some ("re-login request failed: " <> message))
            × Answer started (method_error name message) false))
unfolding re_login call_re_login
relogin_ends_example =
    relogin_ends format environment settings notifier started-Starts relogin_call caller refl
      commander refl "1.0"
