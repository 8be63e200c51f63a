-- ===== src/Tests/Joining.antt =====
-- A client that joins at concrete times.
use mathlib.Core.List.Permᴰ
use fw_id_agent.Prelude.{
  eq_iff, false, ◌≡◌, ◌≢◌, refl, Bool, true, none, some, List, [], ◌∷◌, ◌++◌, String, map, arith,
}
use fw_id_agent.Status.{Status}
use fw_id_agent.Dbusapi.{Value, uint32}
use fw_id_agent.Agent.State.{Agent, Effect, set_property, notification}
use fw_id_agent.Agent.Loop.{Event, run, running, tnd_result}
use fw_id_agent.DbusClient.Update.{got, trusted_network, set_config, decode}
use fw_id_agent.DbusClient.Query.{query}
use fw_id_agent.DbusClient.Signal.{subscription, follows}
use fw_id_agent.DbusClient.Subscription.{subscribe_calls}
use fw_id_agent.Tracking.{signal_of}
use fw_id_agent.Tracking.Gaps.{Seen, unseen, join}
use fw_id_agent.Tracking.Fields.{field}
use fw_id_agent.Tracking.Properties.{current, get_all}
use fw_id_agent.Tracking.Shown.{Shows}
use fw_id_agent.Tracking.Query.{ConfigReadable}
use fw_id_agent.Tracking.Configured.{client_configured}
use fw_id_agent.Tracking.Joining.{Answered, missed_update}
use fw_id_agent.Tests.Data.{krb, tnd, settings, environment, notifier, started, started-Starts}
use fw_id_agent.Tests.Agent.{execute}
use fw_id_agent.Agent.Loop.{agent_of}
use fw_id_agent.Tests.Bus.{bus}
use fw_id_agent.Tests.Tracking.{carries}

abbrev pub arrival : List (Event krb)
arrival = tnd_result true ∷ []

abbrev pub trusting : Agent krb Bool
trusting = agent_of (run started arrival)

abbrev pub late : List Effect
late =
    set_property "TrustedNetwork" (uint32 2)
    ∷ notification (record {
      replaces_id = 7;
      title = "Trusted Network";
      message = "Trusted network detected";
      expire_timeout = 5;
    })
    ∷ []

pub trusting-late : trusting.trace ≡ late ++ started.trace
unfolding execute
trusting-late = refl

pub arrival-running : run started arrival ≡ running trusting
unfolding execute
arrival-running = refl

pub nothing-running : run started [] ≡ running started
unfolding run
nothing-running = refl

pub started-readable : ConfigReadable tnd bus carries started.trace
unfolding started decode
started-readable = (set_config (some settings), refl)

abbrev pub answer : List Effect → List (String × Value)
answer es = get_all tnd bus carries es

pub answered : (es : List Effect) → Answered tnd bus carries es (answer es) (answer es)
answered es = record { first = Permᴰ.refl _; second = Permᴰ.refl _ }

no_effects-readable : ConfigReadable tnd bus carries []
unfolding decode
no_effects-readable = (set_config none, refl)

late-changes : current (late ++ []) trusted_network ≢ current [] trusted_network
late-changes e = ground arith

-- The agent sets the trusted network before the match rule is added, and nothing behind.
abbrev joined : List Effect × Seen
joined = join subscribe_calls (late ∷ [] ∷ [] ∷ []) [] unseen

missed_update_example :
    (s t : Status Bool) × (sent : List (Status Bool)) × (query bus (got (answer [], answer []))
      ≡ got s)
    × (subscription tnd bus s (map (signal_of tnd bus carries) joined.1.signals) ≡ follows sent t)
    × (field trusted_network t ≢ current joined.0 trusted_network)
unfolding join
missed_update_example =
    missed_update tnd bus carries [] late [] [] (λ q h. tt) no_effects-readable (answer [])
      (answer []) (answered []) trusted_network tt refl late-changes

braces_full : ◌≢◌ {A = String} "{}" ""
braces_full e = let same : false ≡ true = (eq_iff "{}" "").1 e in cc

client_configured_example :
    (s : Status Bool) × (query bus (got (answer trusting.trace, answer trusting.trace)) ≡ got s)
    × (s.config ≡ some settings)
    × Shows trusting s
client_configured_example =
    client_configured tnd bus carries environment settings notifier started started-Starts "{}" refl
      braces_full settings refl arrival (tt, tt) trusting arrival-running (answer trusting.trace)
      (answer trusting.trace) (answered trusting.trace)
