-- ===== src/Examples.antt =====
-- Tests, and the theorems applied to concrete agents, tasks, monitors, routers, schedulers, contexts and plans.
pub mod Samples
pub mod Scheduling
pub mod Tasks
pub mod Agents
pub mod Resources
pub mod Mail
pub mod Workflow
pub mod Contexts
pub mod Plans
pub mod Dispatch
pub mod Repairing
