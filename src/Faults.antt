-- ===== src/Faults.antt =====
-- Faults: the restart budget of a worker and the recovery of tasks (aruntime/daemon).
pub mod Worker
pub mod Recovery
pub mod Budget
pub mod Recovered
