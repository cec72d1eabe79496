-- ===== src/Resource.antt =====
-- The resource monitor (aruntime/resource): leases, quotas and the slots for calls of a model.
pub mod Types
pub mod Monitor
pub mod Sums
pub mod Slots
pub mod Balance
pub mod Books
pub mod History
