-- ===== src/Permissions/Flags.antt =====
-- src/bz-app-permissions.h: BzAppPermissionsFlags. The bits of the word are named, and a word is
-- the function that says which of them are set.
use spacedbazaar.Common.{ℕ, Bool, false, not, ◌&&◌, ◌||◌, List, [], ◌∷◌, ◌==◌}

pub data Flag : Type 0 where
  network system_bus session_bus devices home_full home_read filesystem_full : Flag
  filesystem_read downloads_full downloads_read settings x11 escape_sandbox : Flag
  filesystem_other bus_policy_other audio_devices input_devices system_devices screen : Flag

-- The position of the bit.
unfoldable pub bit : Flag → ℕ
bit network = 0
bit system_bus = 1
bit session_bus = 2
bit devices = 3
bit home_full = 4
bit home_read = 5
bit filesystem_full = 6
bit filesystem_read = 7
bit downloads_full = 8
bit downloads_read = 9
bit settings = 10
bit x11 = 11
bit escape_sandbox = 12
bit filesystem_other = 13
bit bus_policy_other = 14
bit audio_devices = 15
bit input_devices = 16
bit system_devices = 17
bit screen = 18

abbrev pub Flags : Type 0
Flags = Flag → Bool

abbrev pub no_flags : Flags
no_flags k = false

-- `flags | k` and `flags & ~k`.
unfoldable pub set_flag : Flag → Flags → Flags
unfolding bit
set_flag k flags j = flags j || (bit k == bit j)

unfoldable pub clear_flag : Flag → Flags → Flags
unfolding bit
clear_flag k flags j = flags j && not (bit k == bit j)

unfoldable pub set_flags : List Flag → Flags → Flags
set_flags [] flags = flags
set_flags (k ∷ ks) flags = set_flags ks (set_flag k flags)

-- `flags & (k | …)`.
unfoldable pub any_flag : List Flag → Flags → Bool
any_flag [] flags = false
any_flag (k ∷ ks) flags = flags k || any_flag ks flags

abbrev pub all_flags : List Flag
all_flags =
    network ∷ system_bus ∷ session_bus ∷ devices ∷ home_full ∷ home_read ∷ filesystem_full
    ∷ filesystem_read ∷ downloads_full ∷ downloads_read ∷ settings ∷ x11 ∷ escape_sandbox
    ∷ filesystem_other ∷ bus_policy_other ∷ audio_devices ∷ input_devices ∷ system_devices ∷ screen
    ∷ []

-- `flags == BZ_APP_PERMISSIONS_FLAGS_NONE`.
unfoldable pub is_no_flags : Flags → Bool
unfolding any_flag
is_no_flags flags = not (any_flag all_flags flags)
