-- ===== src/Transactions.antt =====
-- src/bz-transaction-manager.c and the transactions of src/bz-transaction.c: the queue of what is to
-- be installed, updated and removed.
pub mod State
pub mod Manager
pub mod Sound
pub mod Waiting
pub mod Steady
pub mod Handed
pub mod Conserved
pub mod Progress
pub mod Drains
pub mod Wedge
pub mod Tests
