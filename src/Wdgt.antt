-- ===== src/Wdgt.antt =====
-- bge/wdgt/fmt/parser.c: the tokens of a widget description, and its evaluation blocks.
pub mod Lexer
pub mod Operators
pub mod Reference
pub mod Merge
pub mod Contraction
pub mod Evaluation
pub mod Tokens
pub mod Progress
pub mod Macros
pub mod Expression
pub mod Blocks
pub mod Escapes
pub mod Kept
pub mod Alternating
pub mod Rounds
pub mod Safe
pub mod Computed
mod Tests
