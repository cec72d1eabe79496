-- ===== src/Daemon.antt =====
-- How the daemon (aruntime/daemon/main.py) writes its agents and their control blocks.
pub mod Agents
pub mod Rounds
pub mod Outcomes
pub mod Killed
