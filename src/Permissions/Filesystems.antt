-- ===== src/Permissions/Filesystems.antt =====
-- src/bz-app-permissions.c, bz_app_permissions_new_from_metadata: the filesystems list.
use spacedbazaar.Common.{
  ℕ, ◌+◌, Bool, true, false, List, [], ◌∷◌, Option, none, some, Text, codes, text_eq, has_prefix,
  has_suffix, if◌then◌else◌, ◌==◌, ltb, length,
}
use spacedbazaar.Permissions.Flags.{
  Flag, Flags, set_flag, set_flags, clear_flag, home_full, home_read, filesystem_full,
  filesystem_read, downloads_full, downloads_read, escape_sandbox, filesystem_other, audio_devices,
  screen,
}
use spacedbazaar.Permissions.Store.{
  PathType, system_root, home_subdir, host_os, host_etc, xdg_desktop, xdg_documents, xdg_music,
  xdg_pictures, xdg_public_share, xdg_videos, xdg_templates, xdg_cache, xdg_config, xdg_data,
  xdg_run, custom, FilesystemPath, Permissions, add_filesystem_read, add_filesystem_full, ◌>>=◌,
}
use spacedbazaar.Permissions.Context.{strv_has}

-- `filesystems_access`.
abbrev pub filesystems_access : List (Text × List Flag)
filesystems_access =
    (codes "home", home_full ∷ [])
    ∷ (codes "home:rw", home_full ∷ [])
    ∷ (codes "home:ro", home_read ∷ [])
    ∷ (codes "~", home_full ∷ [])
    ∷ (codes "~:rw", home_full ∷ [])
    ∷ (codes "~:ro", home_read ∷ [])
    ∷ (codes "host", filesystem_full ∷ [])
    ∷ (codes "host:rw", filesystem_full ∷ [])
    ∷ (codes "host:ro", filesystem_read ∷ [])
    ∷ (codes "xdg-config/kdeglobals:ro", [])
    ∷ (codes "xdg-download", downloads_full ∷ [])
    ∷ (codes "xdg-download:rw", downloads_full ∷ [])
    ∷ (codes "xdg-download:ro", downloads_read ∷ [])
    ∷ (codes "xdg-data/flatpak/overrides:create", escape_sandbox ∷ [])
    ∷ (codes "xdg-run/pipewire-0", screen ∷ audio_devices ∷ [])
    ∷ (codes "xdg-run/pipewire-0:rw", screen ∷ audio_devices ∷ [])
    ∷ (codes "xdg-run/pipewire-0:ro", screen ∷ audio_devices ∷ [])
    ∷ (codes "xdg-run/gvfsd", filesystem_full ∷ [])
    ∷ []

-- The first string that is the key is emptied (`strv[index][0] = '\0'`).
unfoldable pub blank_first : Text → List Text → List Text
blank_first key [] = []
blank_first key (s ∷ strv) = if text_eq s key then [] ∷ strv else s ∷ blank_first key strv

-- The flags, `filesystems_hits`, and `strv` as the loop leaves it.
abbrev pub Access : Type 0
Access = Flags × ℕ × List Text

unfoldable pub access_row : Text → List Flag → Access → Access
access_row key perm (flags, hits, strv) =
    if strv_has key strv
    then (set_flags perm flags, hits + 1, blank_first key strv)
    else (flags, hits, strv)

unfoldable pub access_loop : List (Text × List Flag) → Access → Access
access_loop [] a = a
access_loop ((key, perm) ∷ rows) a = access_loop rows (access_row key perm a)

-- Full access takes the place of read access.
unfoldable pub settle_reads : Flags → Flags
settle_reads f₀ =
    let f₁ = if f₀ home_full then clear_flag home_read f₀ else f₀ in
    let f₂ = if f₁ filesystem_full then clear_flag filesystem_read f₁ else f₁ in
    if f₂ downloads_full then clear_flag downloads_read f₂ else f₂

-- `filesystems_other`.
abbrev pub filesystems_other : List (Text × PathType)
filesystems_other =
    (codes "/", system_root)
    ∷ (codes "home/", home_subdir)
    ∷ (codes "~/", home_subdir)
    ∷ (codes "host-os", host_os)
    ∷ (codes "host-etc", host_etc)
    ∷ (codes "xdg-desktop", xdg_desktop)
    ∷ (codes "xdg-documents", xdg_documents)
    ∷ (codes "xdg-music", xdg_music)
    ∷ (codes "xdg-pictures", xdg_pictures)
    ∷ (codes "xdg-public-share", xdg_public_share)
    ∷ (codes "xdg-videos", xdg_videos)
    ∷ (codes "xdg-templates", xdg_templates)
    ∷ (codes "xdg-cache", xdg_cache)
    ∷ (codes "xdg-config", xdg_config)
    ∷ (codes "xdg-data", xdg_data)
    ∷ (codes "xdg-run", xdg_run)
    ∷ []

-- Up to the last colon (strrchr), or the whole string.
abbrev up_to_colon : Text → Option Text
up_to_colon [] = none
up_to_colon (c ∷ s) =
    let rest = up_to_colon s in
    elim rest [ some t ↦ some (c ∷ t) | none ↦ if c == b':' then some [] else none ]

unfoldable pub before_colon : Text → Text
before_colon s = elim (up_to_colon s) [ none ↦ s | some t ↦ t ]

-- What follows the first slash (strchr), where there is one.
unfoldable pub after_slash : Text → Option Text
after_slash [] = none
after_slash (c ∷ s) = let rest = after_slash s in if c == b'/' then some s else rest

abbrev leading_slash : Text → Bool
leading_slash [] = false
leading_slash (c ∷ s) = c == b'/'

abbrev root_subpath : Text → Option Text
root_subpath [] = none
root_subpath (c ∷ []) = none
root_subpath (c ∷ d ∷ s) = some (d ∷ s)

unfoldable pub subpath_of : PathType → Text → Option Text
subpath_of system_root perm = root_subpath perm
subpath_of t perm = if leading_slash perm then none else after_slash perm

unfoldable pub parse_path : List (Text × PathType) → Text → FilesystemPath
parse_path [] perm = record { kind = custom; subpath = some perm }
parse_path ((prefix, t) ∷ rows) perm =
    if has_prefix perm prefix
    then record { kind = t; subpath = subpath_of t perm }
    else parse_path rows perm

-- One string that no row of `filesystems_access` has taken.
unfoldable pub add_other : Text → Permissions → Option Permissions
add_other perm p =
    let path = parse_path filesystems_other (before_colon perm) in
    if has_suffix perm (codes ":ro") then add_filesystem_read path p else add_filesystem_full path p

abbrev pub is_blank : Text → Bool
is_blank [] = true
is_blank (_ ∷ _) = false

unfoldable pub add_others : List Text → Permissions → Option Permissions
add_others [] p = some p
add_others (perm ∷ strv) p = do
  q ← if is_blank perm then some p else add_other perm p
  add_others strv q

-- The flags and the object so far.
abbrev pub Parsed : Type 0
Parsed = Flags × Permissions

-- The rest of the list, where the rows have not matched all of its n strings.
unfoldable pub add_unmatched : ℕ → Access → Permissions → Option Parsed
add_unmatched n (f, hits, left) p =
    if ltb hits n
    then (add_others left p >>= λ q. some (set_flag filesystem_other (settle_reads f), q))
    else some (settle_reads f, p)

unfoldable pub add_filesystems : Option (List Text) → Parsed → Option Parsed
add_filesystems none (flags, p) = some (flags, p)
add_filesystems (some strv) (flags, p) =
    add_unmatched (length strv) (access_loop filesystems_access (flags, 0, strv)) p
