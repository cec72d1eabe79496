-- ===== src/Plans.antt =====
-- The planner's plans: their validation and what is made of them (aruntime/planner), and the search for
-- cycles that applications/incident_repair/routing.py has too.
pub mod Search
pub mod Visits
pub mod Settled
pub mod Ranks
pub mod Validator
pub mod Maps
pub mod Materializer
pub mod Acyclic
pub mod Accepted
pub mod Coders
pub mod Children
pub mod CoderChecks
pub mod Progress
