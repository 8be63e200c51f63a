-- ===== src/Cli.antt =====
-- internal/cli/cmd.go: the command line client, from its arguments to what it prints and calls.
pub mod Parsing
pub mod Printing
pub mod Commands
pub mod Accepting
pub mod Running
