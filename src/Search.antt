-- ===== src/Search.antt =====
-- src/bz-search-engine.c: the search in the application's window.
pub mod Work
pub mod Strings
pub mod Matches
pub mod Cut
pub mod Missed
pub mod Scores
pub mod Scored
pub mod Hits
mod StringTests
pub mod Tests
