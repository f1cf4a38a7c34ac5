-- ===== src/Permissions.antt =====
-- src/bz-app-permissions.c: what a Flatpak application may do, as read from its metadata.
pub mod Flags
pub mod Store
pub mod Context
pub mod Filesystems
pub mod Buses
pub mod Metadata
pub mod Paths
pub mod Invariant
pub mod Sources
pub mod Parsing
pub mod Result
pub mod Nicks
pub mod Saved
pub mod SavedPaths
pub mod SavedFlags
pub mod RoundTrip
pub mod Tests
pub mod SavedTests
