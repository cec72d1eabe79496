-- ===== src/Kernel.antt =====
-- The kernel scheduler (aruntime/scheduler/kernel.py).
pub mod Defs
pub mod Order
pub mod Agents
pub mod Queues
pub mod Search
pub mod Dependencies
pub mod Dispatch
pub mod Finish
pub mod Paths
pub mod Counts
pub mod Safety
pub mod Moves
pub mod Kept
pub mod Turn
pub mod Dispatched
pub mod Limits
pub mod Sorted
pub mod Served
pub mod Links
pub mod History
