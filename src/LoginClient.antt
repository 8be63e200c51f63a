-- ===== src/LoginClient.antt =====
-- internal/client/client.go: the client that logs in at the identity service, again and again, and
-- logs out when it is stopped.
pub mod State
pub mod Request
pub mod Session
pub mod Protocol
pub mod Timer
pub mod Rounds
pub mod Sending
