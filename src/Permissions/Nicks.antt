-- ===== src/Permissions/Nicks.antt =====
-- src/bz-app-permissions.c: the nicks of the three enumerations, and the GEnumClass and GFlagsClass
-- that GLib makes of them.
use spacedbazaar.Common.{
  List, [], ◌∷◌, map, Option, none, some, Text, text_eq, codes, ◌≡◌, refl, if◌then◌else◌,
}
use spacedbazaar.Permissions.Flags.{
  Flag, all_flags, network, system_bus, session_bus, devices, home_full, home_read, filesystem_full,
  filesystem_read, downloads_full, downloads_read, settings, x11, escape_sandbox, filesystem_other,
  bus_policy_other, audio_devices, input_devices, system_devices, screen,
}
use spacedbazaar.Permissions.Store.{
  PathType, BusPermission, system_root, home_subdir, host_os, host_etc, xdg_desktop, xdg_documents,
  xdg_music, xdg_pictures, xdg_public_share, xdg_videos, xdg_templates, xdg_cache, xdg_config,
  xdg_data, xdg_run, custom, unknown, nothing, see, talk, own,
}

-- The enumerators in their order, and the nick of each.
pub record EnumClass {ℓ} (A : Type ℓ) : Type ℓ where
  pub values : List A
  pub nick : A → Text

-- The first enumerator of a nick.
abbrev pub find_nick {ℓ} : {A : Type ℓ} → (A → Text) → Text → List A → Option A
find_nick nick s [] = none
find_nick nick s (v ∷ vs) =
    let rest = find_nick nick s vs in if text_eq s (nick v) then some v else rest

-- BzAppPermissionsFlags; `none` is BZ_APP_PERMISSIONS_FLAGS_NONE.
unfoldable pub flag_nick : Option Flag → Text
flag_nick none = codes "none"
flag_nick (some network) = codes "network"
flag_nick (some system_bus) = codes "system-bus"
flag_nick (some session_bus) = codes "session-bus"
flag_nick (some devices) = codes "devices"
flag_nick (some home_full) = codes "home-full"
flag_nick (some home_read) = codes "home-read"
flag_nick (some filesystem_full) = codes "filesystem-full"
flag_nick (some filesystem_read) = codes "filesystem-read"
flag_nick (some downloads_full) = codes "downloads-full"
flag_nick (some downloads_read) = codes "downloads-read"
flag_nick (some settings) = codes "settings"
flag_nick (some x11) = codes "x11"
flag_nick (some escape_sandbox) = codes "escape-sandbox"
flag_nick (some filesystem_other) = codes "filesystem-other"
flag_nick (some bus_policy_other) = codes "bus-policy-other"
flag_nick (some audio_devices) = codes "audio-devices"
flag_nick (some input_devices) = codes "input-devices"
flag_nick (some system_devices) = codes "system-devices"
flag_nick (some screen) = codes "screen"

-- BzFilesystemPathType.
unfoldable pub path_nick : PathType → Text
path_nick system_root = codes "system-root"
path_nick home_subdir = codes "home-subdir"
path_nick host_os = codes "host-os"
path_nick host_etc = codes "host-etc"
path_nick xdg_desktop = codes "xdg-desktop"
path_nick xdg_documents = codes "xdg-documents"
path_nick xdg_music = codes "xdg-music"
path_nick xdg_pictures = codes "xdg-pictures"
path_nick xdg_public_share = codes "xdg-public-share"
path_nick xdg_videos = codes "xdg-videos"
path_nick xdg_templates = codes "xdg-templates"
path_nick xdg_cache = codes "xdg-cache"
path_nick xdg_config = codes "xdg-config"
path_nick xdg_data = codes "xdg-data"
path_nick xdg_run = codes "xdg-run"
path_nick custom = codes "custom"

-- BzBusPolicyPermission.
unfoldable pub permission_nick : BusPermission → Text
permission_nick unknown = codes "unknown"
permission_nick nothing = codes "none"
permission_nick see = codes "see"
permission_nick talk = codes "talk"
permission_nick own = codes "own"

unfoldable pub flag_class : EnumClass (Option Flag)
flag_class = record { values = none ∷ map some all_flags; nick = flag_nick }

unfoldable pub path_class : EnumClass PathType
path_class = record {
  values =
      system_root ∷ home_subdir ∷ host_os ∷ host_etc ∷ xdg_desktop ∷ xdg_documents ∷ xdg_music
      ∷ xdg_pictures ∷ xdg_public_share ∷ xdg_videos ∷ xdg_templates ∷ xdg_cache ∷ xdg_config
      ∷ xdg_data ∷ xdg_run ∷ custom ∷ [];
  nick = path_nick;
}

unfoldable pub permission_class : EnumClass BusPermission
permission_class = record {
  values = unknown ∷ nothing ∷ see ∷ talk ∷ own ∷ [];
  nick = permission_nick;
}

-- Each enumerator is the first one of its nick.
abbrev pub IsFound {ℓ} : {A : Type ℓ} → EnumClass A → Type ℓ
IsFound {A = A} cls = (a : A) → find_nick cls.nick (cls.nick a) cls.values ≡ some a

pub flag_class-IsFound : IsFound flag_class
unfolding flag_class flag_nick text_eq
flag_class-IsFound none = refl
flag_class-IsFound (some network) = refl
flag_class-IsFound (some system_bus) = refl
flag_class-IsFound (some session_bus) = refl
flag_class-IsFound (some devices) = refl
flag_class-IsFound (some home_full) = refl
flag_class-IsFound (some home_read) = refl
flag_class-IsFound (some filesystem_full) = refl
flag_class-IsFound (some filesystem_read) = refl
flag_class-IsFound (some downloads_full) = refl
flag_class-IsFound (some downloads_read) = refl
flag_class-IsFound (some settings) = refl
flag_class-IsFound (some x11) = refl
flag_class-IsFound (some escape_sandbox) = refl
flag_class-IsFound (some filesystem_other) = refl
flag_class-IsFound (some bus_policy_other) = refl
flag_class-IsFound (some audio_devices) = refl
flag_class-IsFound (some input_devices) = refl
flag_class-IsFound (some system_devices) = refl
flag_class-IsFound (some screen) = refl

pub path_class-IsFound : IsFound path_class
unfolding path_class path_nick text_eq
path_class-IsFound system_root = refl
path_class-IsFound home_subdir = refl
path_class-IsFound host_os = refl
path_class-IsFound host_etc = refl
path_class-IsFound xdg_desktop = refl
path_class-IsFound xdg_documents = refl
path_class-IsFound xdg_music = refl
path_class-IsFound xdg_pictures = refl
path_class-IsFound xdg_public_share = refl
path_class-IsFound xdg_videos = refl
path_class-IsFound xdg_templates = refl
path_class-IsFound xdg_cache = refl
path_class-IsFound xdg_config = refl
path_class-IsFound xdg_data = refl
path_class-IsFound xdg_run = refl
path_class-IsFound custom = refl

pub permission_class-IsFound : IsFound permission_class
unfolding permission_class permission_nick text_eq
permission_class-IsFound unknown = refl
permission_class-IsFound nothing = refl
permission_class-IsFound see = refl
permission_class-IsFound talk = refl
permission_class-IsFound own = refl
