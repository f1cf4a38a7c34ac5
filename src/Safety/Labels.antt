-- ===== src/Safety/Labels.antt =====
-- src/safety-calculator.c: the names of bus policies; src/bz-app-permissions.c: those of paths.
-- gettext and printf are parameters: `tr` translates, and `printf` puts one string in for `%s`.
use Prim.Native.String.{String}
use spacedbazaar.Common.{◌||◌, Option, none, some, Text, codes, text_eq, if◌then◌else◌}
use spacedbazaar.Permissions.Store.{
  PathType, system_root, home_subdir, host_os, host_etc, xdg_desktop, xdg_documents, xdg_music,
  xdg_pictures, xdg_public_share, xdg_videos, xdg_templates, xdg_cache, xdg_config, xdg_data,
  xdg_run, custom, FilesystemPath, bus_none, bus_system, bus_session, BusPermission, unknown,
  nothing, see, talk, own, BusPolicy,
}

pub record Locale : Type 0 where
  pub tr : Text → Text
  pub printf : Text → Option Text → Text

module _ (l : Locale) where
  abbrev say : String → Text
  say s = l.tr (codes s)

  -- A folder that the application may have only a part of.
  abbrev folder : String → String → Option Text → Text
  folder whole part none = say whole
  folder whole part (some s) = l.printf (say part) (some s)

  abbrev or_root : Option Text → Option Text
  or_root none = some (codes "/")
  or_root (some s) = some s

  unfoldable pub to_display_string : FilesystemPath → Text
  to_display_string p = elim p.kind [
    | system_root ↦ l.printf (say "System folder %s") (or_root p.subpath)
    | home_subdir ↦ l.printf (say "Home subfolder %s") p.subpath
    | host_os ↦ say "Host system folders"
    | host_etc ↦ say "Host system configuration from /etc"
    | xdg_desktop ↦ folder "Desktop folder" "Desktop subfolder %s" p.subpath
    | xdg_documents ↦ folder "Documents folder" "Documents subfolder %s" p.subpath
    | xdg_music ↦ folder "Music folder" "Music subfolder %s" p.subpath
    | xdg_pictures ↦ folder "Pictures folder" "Pictures subfolder %s" p.subpath
    | xdg_public_share ↦ folder "Public Share folder" "Public Share subfolder %s" p.subpath
    | xdg_videos ↦ folder "Videos folder" "Videos subfolder %s" p.subpath
    | xdg_templates ↦ folder "Templates folder" "Templates subfolder %s" p.subpath
    | xdg_cache ↦ folder "User cache folder" "User cache subfolder %s" p.subpath
    | xdg_config ↦ folder "User configuration folder" "User configuration subfolder %s" p.subpath
    | xdg_data ↦ folder "User data folder" "User data subfolder %s" p.subpath
    | xdg_run ↦ folder "User runtime folder" "User runtime subfolder %s" p.subpath
    | custom ↦ l.printf (say "Filesystem access to %s") p.subpath
  ]

  unfoldable pub format_bus_policy_title : BusPolicy → Text
  format_bus_policy_title q = elim q.bus_type [
    | bus_system ↦ l.printf (say "Use the %s System Service") (some q.bus_name)
    | bus_session ↦ l.printf (say "Use the %s Session Service") (some q.bus_name)
    | bus_none ↦ l.printf (say "Use the %s Service") (some q.bus_name)
  ]

  -- `none` is g_assert_not_reached.
  unfoldable pub format_bus_policy_subtitle : BusPermission → Option Text
  format_bus_policy_subtitle see = some (say "Can see the non-portal service")
  format_bus_policy_subtitle talk = some (say "Can talk to the non-portal service")
  format_bus_policy_subtitle own = some (say "Can own the non-portal service")
  format_bus_policy_subtitle nothing = none
  format_bus_policy_subtitle unknown = none

  -- A title and a description, where the name is well known.
  unfoldable pub lookup_well_known_bus_policy : Text → Option (Text × Text)
  lookup_well_known_bus_policy s =
      if text_eq s (codes "com.canonical.AppMenu.Registrar")
      then some (say "Global Menu Integration", say "Can display its menus in a global menu bar")
      else if text_eq s (codes "org.kde.kconfig.notify")
      then some (say "KDE Settings Integration", say "Can detect when KDE desktop settings change")
      else if text_eq s (codes "org.kde.KGlobalSettings")
      then some
          (say "KDE Global Settings", say "Can read KDE desktop preferences like fonts and colors")
      else if text_eq s (codes "org.freedesktop.secrets")
      then some (
        say "Secret Storage Service",
        say "Can store and retrieve its own passwords using the system keyring",
      )
      else if text_eq s (codes "org.freedesktop.Notifications")
      then some (say "Desktop Notifications Service", say "Can send desktop notifications")
      else if text_eq s (codes "org.kde.StatusNotifierWatcher")
          || text_eq s (codes "com.canonical.indicator.application")
      then some (say "System Tray Integration", say "Can display an icon in the system tray")
      else if text_eq s (codes "org.kde.kdeconnect")
      then some
          (say "KDE Connect Integration", say "Can interact with devices paired via KDE Connect")
      else none

unfoldable pub to_icon_name : PathType → Text
to_icon_name host_os = codes "computer-symbolic"
to_icon_name host_etc = codes "emblem-system-symbolic"
to_icon_name xdg_desktop = codes "user-desktop-symbolic"
to_icon_name xdg_documents = codes "folder-documents-symbolic"
to_icon_name xdg_music = codes "folder-music-symbolic"
to_icon_name xdg_pictures = codes "folder-pictures-symbolic"
to_icon_name xdg_public_share = codes "folder-publicshare-symbolic"
to_icon_name xdg_videos = codes "folder-videos-symbolic"
to_icon_name xdg_config = codes "emblem-system-symbolic"
to_icon_name _ = codes "folder-symbolic"
