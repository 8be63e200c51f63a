-- ===== src/Tests.antt =====
-- Runs of the model at concrete inputs, and the theorems there.
mod Data
mod Agent
mod Config
mod Login
mod Bus
mod Command
mod Monitors
mod Tracking
mod Joining
mod CommandLine
mod Running
mod Tool
mod Together
mod Worker
mod Service
mod Whole
