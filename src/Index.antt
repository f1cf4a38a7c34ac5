-- ===== src/Index.antt =====
-- src/search-index-write.c and src/search-index.c: the search index on disk.
pub mod Write
pub mod Read
pub mod Atomic
pub mod RoundTrip
pub mod Score
pub mod Query
pub mod Lookup
mod Tests
