-- ===== src/Planning.antt =====
-- The choice of coder tasks in the incident repair workflow (applications/incident_repair/routing.py).
pub mod Coders
pub mod Choice
