-- ===== src/Task.antt =====
-- Tasks (aruntime/core/models.py): the statuses, the control block, the task with its mirror of
-- the control block, and what holds of them.
pub mod Status
pub mod Control
pub mod Spec
pub mod Times
pub mod Mirror
