-- ===== src/Categories.antt =====
-- src/bz-category-flags.c: the set of categories of an application.
pub mod Table
pub mod Names
pub mod Tests
