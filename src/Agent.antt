-- ===== src/Agent.antt =====
-- internal/agent/agent.go: the agent, which starts and stops the login client by the state of the
-- network and of Kerberos, and reports its state over D-Bus.
pub mod State
pub mod Setters
pub mod Handlers
pub mod Loop
pub mod Start
pub mod Startup
pub mod Mirror
pub mod Lifecycle
pub mod Served
pub mod Reach
pub mod Notices
pub mod Silent
pub mod Published
pub mod Typed
pub mod Histories
pub mod Shutdown
pub mod Farewell
pub mod Relogin
pub mod Sleep
pub mod SleepMon
pub mod Sleeping
pub mod Calls
pub mod Joint
