-- ===== src/Groups.antt =====
-- src/bz-entry-group.c: the entries of one application, their states and the counters of these.
pub mod State
pub mod Saved
pub mod Usefulness
pub mod Add
pub mod Notify
pub mod Reconcile
pub mod Counts
pub mod Balance
pub mod Tallies
pub mod Keeps
pub mod Counted
pub mod Added
pub mod Scanned
pub mod History
pub mod Living
pub mod Drift
pub mod SavedLists
pub mod SavedTexts
pub mod RoundTrip
pub mod SavedTests
pub mod Tests
