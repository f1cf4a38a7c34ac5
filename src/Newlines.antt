-- ===== src/Newlines.antt =====
-- src/bz-newline-parser.c: lists of ids, one on a line.
pub mod Loop
pub mod Lines
pub mod Limit
pub mod Tests
