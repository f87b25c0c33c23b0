-- ===== src/Tests.antt =====
-- A simulated machine, and each theorem with hypotheses at an input that meets them.
mod Blank
mod Sim
mod Switches
mod Watching
mod Wiring
mod Vault
mod Threads
mod Identity
mod Orchestration
mod Console
mod Watcher
mod Filtering
mod Window
mod Profiles
