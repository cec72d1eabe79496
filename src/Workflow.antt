-- ===== src/Workflow.antt =====
-- The workflow service (aruntime/workflow/service.py): repairs of failed tests and the integration of
-- patches.
pub mod Service
pub mod Patches
pub mod Repairs
pub mod Accepted
pub mod Integration
