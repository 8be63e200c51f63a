-- ===== src/Lib.antt =====
-- The firewall identity agent. The agent watches whether the computer is in a trusted network
-- and whether the user has Kerberos credentials; while both hold it runs a client that logs the
-- user in at an identity service, again and again, and it reports its state over D-Bus and in
-- desktop notifications. A D-Bus client follows that state.
--
-- How the files correspond to the code:
--   Prelude.antt        native numbers, integers with the wrap-around of int64, strings, lists.
--   Config.antt         pkg/config/config.go: the configuration, `Valid`, `Copy`, the durations.
--                       Config/Validity and Config/Durations hold the proofs.
--   Status.antt         pkg/status/status.go: the status and the two state types, whose constants
--                       and names are in Status/TrustedNetwork and Status/LoginState;
--                       Status/Json: `JSON`, `JSONIndent` and `NewFromJSON`.
--   Handoff.antt        the goroutines that hand values to the main loop of the agent over an
--                       unbuffered channel and a `select` with `done`, and end when `Stop` closes
--                       `done`: one step relation for the client of internal/client/client.go,
--                       the monitors of internal/krbmon and internal/agent/sleepmon.go;
--                       Handoff/Received: what the agent receives; Handoff/Stopping: the end.
--   Dbusapi.antt        internal/dbusapi/service.go: property names and values, requests.
--                       Dbusapi/Service: `Start`, the main loop and the method `ReLogin`;
--                       Dbusapi/Serving: the goroutine of the main loop next to the agent's calls
--                       of `SetProperty` and `Stop`, with what clients see in
--                       Dbusapi/Serving/Sound and Dbusapi/Serving/Stopped.
--   Krbmon.antt         internal/krbmon: the updates of the Kerberos monitors and `GetTGT`.
--                       Krbmon/Monitor: what ccachemon.go and confmon.go have in common, the file
--                       events and the loop; Krbmon/Files: how each loads its file;
--                       Krbmon/Updates: which updates are sent; Krbmon/Start: the name of the
--                       ccache file and `Start`; Krbmon/Starting: what becomes of the watcher;
--                       Krbmon/Sending: a monitor as such a goroutine.
--   Notify.antt         internal/notify/notify.go: `NewNotifier`, `Close`, and `Notify` as the
--                       D-Bus calls it makes.
--   LoginClient.antt    internal/client/client.go. LoginClient/State: the client and its setters;
--                       LoginClient/Request: `doServiceRequest`; LoginClient/Session: `login`,
--                       `logout` and the two cases of the loop of `start`; LoginClient/Rounds:
--                       the whole loop; LoginClient/Protocol: what a login reports and sets;
--                       LoginClient/Timer: when the next login is due; LoginClient/Sending:
--                       `sendResult` and `Stop` next to the agent.
--   Agent.antt          internal/agent/agent.go. Agent/State: the agent and its effects on other
--                       components as a trace; Agent/Setters: the status setters with the change
--                       handlers; Agent/Handlers: `startClient`, `stopClient` and the handlers of
--                       the main loop; Agent/Loop: one round of the `select`, the loop over a
--                       sequence of events, and `Stop`; Agent/Start: `initTND` and `Start`, and
--                       Agent/Startup what it leaves behind. The other files prove invariants of
--                       the loop (Agent/Reach, Agent/Lifecycle, Agent/Served, Agent/Mirror,
--                       Agent/Notices, Agent/Histories), how it ends (Agent/Shutdown,
--                       Agent/Silent, Agent/Farewell), what it has published (Agent/Published,
--                       Agent/Typed), the re-login (Agent/Relogin) and the sleep (Agent/Sleep).
--                       Agent/SleepMon: internal/agent/sleepmon.go, with Agent/SleepMon/Start and
--                       Agent/SleepMon/Sending; Agent/Sleeping: that monitor and the agent
--                       together. Agent/Joint: the agent next to the goroutine of its client, and
--                       what D-Bus shows of its logins; Agent/Calls: the agent next to a call of
--                       `ReLogin`.
--   DbusClient.antt     pkg/client/client.go. DbusClient/Update: `updateStatusFromProperties`;
--                       DbusClient/Signal: `handlePropertiesChanged` and the goroutine of
--                       `Subscribe`; DbusClient/Subscription: `Subscribe` and `Close`;
--                       DbusClient/Query: `Query`; DbusClient/Calls: `Ping` and `ReLogin`;
--                       DbusClient/Worker: the goroutine of `Subscribe` next to the reader of its
--                       updates and to `Close`, with DbusClient/Worker/Taken,
--                       DbusClient/Worker/Received and DbusClient/Worker/Ending.
--   Tracking.antt       the agent, the D-Bus service and a D-Bus client together: the signals
--                       that the service emits for its property updates, and what the client
--                       makes of them (Tracking/Fields, Tracking/Follow, Tracking/Histories),
--                       what a client that asks for the status gets (Tracking/Properties,
--                       Tracking/Shown, Tracking/Query, Tracking/Gaps, Tracking/Joining,
--                       Tracking/Reader, Tracking/EndToEnd, Tracking/Configured) and prints
--                       (Tracking/Displayed), the types of what is set (Tracking/Typed), and the
--                       re-login (Tracking/Relogin, Tracking/Command).
--   Flags.antt          what the two commands use of Go's package flag, the loop of `Parse`.
--   AgentCmd.antt       internal/agent/cmd.go: `parseTNDServers` and `getConfig` behind the
--                       parsing of the flags; AgentCmd/Arguments: the flags; AgentCmd/Loading:
--                       `Load` and `NewFromJSON` of pkg/config/config.go; AgentCmd/Lifecycle:
--                       `run`. AgentCmd/Servers, AgentCmd/Precedence, AgentCmd/Written,
--                       AgentCmd/Layers and AgentCmd/Ending hold the proofs.
--   Cli.antt            internal/cli/cmd.go: Cli/Parsing: `parseCommandLine`; Cli/Printing:
--                       `printStatus`; Cli/Commands: the three commands and `run`. Cli/Accepting
--                       and Cli/Running hold the proofs.
--   DbusTool.antt       tools/dbusclient/main.go: the values of the example program and its loop;
--                       DbusTool/Agreement and DbusTool/Following: how they agree with those of
--                       the client package.
--   Tests.antt          concrete values, and the theorems at concrete inputs.
--
-- How the parts interact. The agent is driven by events: results of the network detection,
-- updates of the two Kerberos monitors, requests of the D-Bus service, sleep events, login
-- states that its client sends over its results channel, and the closing of each of these
-- channels. A sequence of events is one interleaving; nothing is assumed of their order. In
-- Handoff, Agent/Joint, Agent/Calls, Dbusapi/Serving and DbusClient/Worker the goroutines take
-- steps of their own, in any order: a value passes over an unbuffered channel only when its
-- receiver waits for it, a `select` takes any case that is ready, and the agent, which waits in
-- `Stop`, receives nothing more. What the agent does to another component is an effect in its
-- trace. A client's results channel has an identity, which tells the results of a client that
-- was replaced from those of the new one. The agent may set the ccache and the Kerberos
-- configuration of a client at any time, so the client reads them anew at each use.
--
-- Numbers. `int` and `time.Duration` are integers with the wrap-around of int64 written out
-- where the code multiplies; uint32 states are natural numbers, since a value without a name can
-- arrive over D-Bus. No loop needs fuel: each is a recursion over a list of what it receives,
-- and the steps of a goroutine behind `Stop` are counted.
--
-- Parameters. The network detection (`Tnd`), Kerberos (`Krb`), the HTTP and JSON libraries
-- (`Remote`, `Json`), the loading of files (`Loader`) and the D-Bus library (`Bus`, `Caller`)
-- are records of what the code calls. Closing the connection to D-Bus closes the channel of its
-- signals, as godbus documents. Where the service and the client are taken together, `Carries`
-- says that a value is read as it was sent, `signal_of` is the signal that the library emits for
-- a property, and `get_all` is its answer with all properties. A Go map is a list in the order
-- in which one `range` visits it; two loops over a map have two orders, and so have those of two
-- processes over the same signal. `Watcher` is what fsnotify answers, `Format` what turns times
-- and JSON into text, and the text of an integer flag is read by a parameter.
--
-- Not modelled: logging, which changes no state; encoding/json, which the code only calls; the
-- timer of the client, whose firing is an input: the loop sets it anew behind each firing, so
-- reading it at the end does not block; the contents of introspection data; the texts of errors
-- where the code only wraps another error; the usage texts of the commands; the two functions
-- `Run`, which log an error; and the tests, the packaging and the entry points of the commands.
pub mod Prelude
pub mod Config
pub mod Status
pub mod Dbusapi
pub mod Handoff
pub mod Krbmon
pub mod Notify
pub mod LoginClient
pub mod Agent
pub mod DbusClient
pub mod Tracking
pub mod Flags
pub mod AgentCmd
pub mod Cli
pub mod DbusTool
mod Tests
