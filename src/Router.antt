-- ===== src/Router.antt =====
-- The message router (aruntime/comm/router.py) with the mailbox table of aruntime/daemon/store.py.
pub mod Defs
pub mod Mailboxes
pub mod Receipts
pub mod Acks
