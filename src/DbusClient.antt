-- ===== src/DbusClient.antt =====
-- pkg/client/client.go: the client of the agent's D-Bus interface.
pub mod Calls
pub mod Update
pub mod Query
pub mod Signal
pub mod Subscription
pub mod Worker
