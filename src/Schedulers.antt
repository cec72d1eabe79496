-- ===== src/Schedulers.antt =====
-- The simple schedulers (aruntime/scheduler/fifo.py, dag.py and resource_aware.py).
pub mod Fifo
pub mod Dag
pub mod Resourced
pub mod Handout
pub mod Failing
pub mod Unfailed
pub mod Answered
pub mod Sorting
pub mod Sorted
pub mod Listed
