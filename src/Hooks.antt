-- ===== src/Hooks.antt =====
-- src/hooks.c: the hooks that a distributor configures.
pub mod Config
pub mod Stages
pub mod Termination
pub mod Protocol
pub mod Offers
pub mod Emission
mod Tests
