-- ===== src/Safety.antt =====
-- src/safety-calculator.c: the safety rows of an application, its rating and its risks.
pub mod Rows
pub mod Labels
pub mod Analyze
pub mod Services
pub mod Rating
pub mod Critical
pub mod Risk
pub mod Icons
pub mod Order
pub mod Tests
