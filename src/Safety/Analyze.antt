-- ===== src/Safety/Analyze.antt =====
-- src/safety-calculator.c, bz_safety_calculator_analyze_entry. The calls of add_row_if_permission
-- are listed in their order, in the groups of the code.
use Prim.Native.String.{String}
use spacedbazaar.Common.{
  Bool, true, not, ◌&&◌, List, [], ◌∷◌, Option, some, codes, if◌then◌else◌, ◌==◌,
}
use spacedbazaar.Permissions.Flags.{
  Flag, Flags, any_flag, network, devices, input_devices, audio_devices, system_devices, screen,
  x11, escape_sandbox, settings, filesystem_full, home_full, filesystem_read, home_read,
  downloads_full, downloads_read,
}
use spacedbazaar.Permissions.Store.{home_subdir, path_code, FilesystemPath, Permissions}
use spacedbazaar.Safety.Rows.{
  Importance, unimportant, information, warning, important, Label, no_label, Call,
}
use spacedbazaar.Safety.Labels.{Locale, to_display_string, to_icon_name}

-- What the calculator asks of a BzEntry.
pub record Entry : Type 0 where
  pub is_verified : Bool
  pub is_foss : Bool
  pub permissions : Option Permissions

abbrev pub fs_importance : Flags → Importance
fs_importance f = if f network then warning else information

module _ (l : Locale) where
  abbrev pub label : String → String → String → Label
  label i t d = record {
    icon = some (codes i);
    caption = some (l.tr (codes t));
    description = some (l.tr (codes d));
  }

  abbrev pub on : Bool → Importance → Label → Call
  on b i w = record {
    has_permission = b;
    item_rating = i;
    with_permission = w;
    without_permission = no_label;
  }

  unfoldable pub unknown_calls : List Call
  unknown_calls =
      on true warning (
        label "channel-insecure-symbolic" "Unknown Permissions"
          "Permissions are missing for this app.")
      ∷ []

  unfoldable pub device_calls : Bool → Flags → List Call
  device_calls empty f =
      on empty unimportant
        (label "permissions-sandboxed-symbolic" "No Permissions" "App is fully sandboxed")
      ∷ record {
        has_permission = f network;
        item_rating = information;
        with_permission =
            label "network-wireless-symbolic" "Network Access" "Can access the internet";
        without_permission =
            label "network-wireless-disabled-symbolic" "No Network Access"
              "Cannot access the internet";
      }
      ∷ record {
        has_permission = f devices;
        item_rating = if f network then warning else information;
        with_permission =
            label "camera-photo-symbolic" "User Device Access"
              "Can access devices such as webcams or gaming controllers";
        without_permission =
            label "camera-disabled-symbolic" "No User Device Access"
              "Cannot access devices such as webcams or gaming controllers";
      }
      ∷ on (f input_devices) information
          (label "input-keyboard-symbolic" "Input Device Access" "Can access input devices")
      ∷ on (f audio_devices) information (
          label "permissions-microphone-symbolic" "Microphone Access and Audio Playback"
            "Can listen using microphones and play audio without asking permission")
      ∷ on (f system_devices) warning (
          label "permissions-system-devices-symbolic" "System Device Access"
            "Can access system devices which require elevated permissions")
      ∷ on (f screen) warning (
          label "permissions-screen-contents-symbolic" "Screen Contents Access"
            "Can access the contents of the screen or other windows")
      ∷ on (f x11) important (
          label "permissions-legacy-windowing-system-symbolic" "Legacy Windowing System"
            "Always uses a legacy windowing system (X11)")
      ∷ on (f escape_sandbox) important
          (label "earth-symbolic" "Arbitrary Permissions" "Can acquire arbitrary permissions")
      ∷ on (f settings) warning
          (label "emblem-system-symbolic" "User Settings" "Can access and change user settings")
      ∷ []

  unfoldable pub folder_calls : Flags → List Call
  folder_calls f =
      on (f filesystem_full) important (
        label "drive-harddisk-symbolic" "Full File System Read/Write Access"
          "Can read and write all data on the file system")
      ∷ on (f home_full && not (f filesystem_full)) important (
          label "user-home-symbolic" "Home Folder Read/Write Access"
            "Can read and write all data in your home directory")
      ∷ on (f filesystem_read && not (f filesystem_full)) important (
          label "folder-symbolic" "Full File System Read Access"
            "Can read all data on the file system")
      ∷ on (f home_read && not (any_flag (filesystem_full ∷ filesystem_read ∷ []) f)) important (
          label "user-home-symbolic" "Home Folder Read Access"
            "Can read all data in your home directory")
      ∷ on (f downloads_full && not (any_flag (filesystem_full ∷ home_full ∷ []) f))
          (fs_importance f)
          (label "folder-download-symbolic" "Download Folder Read/Write Access"
            "Can read and write all data in your downloads directory")
      ∷ on
          (f downloads_read
            && not (any_flag (filesystem_full ∷ filesystem_read ∷ home_full ∷ home_read ∷ []) f))
          (fs_importance f)
          (label "folder-download-symbolic" "Download Folder Read Access"
            "Can read all data in your downloads directory")
      ∷ []

  abbrev path_call : Flags → String → FilesystemPath → Call
  path_call f text p = on true (fs_importance f) record {
    icon = some (to_icon_name p.kind);
    caption = some (to_display_string l p);
    description = some (l.tr (codes text));
  }

  abbrev is_home_subdir : FilesystemPath → Bool
  is_home_subdir p = path_code p.kind == path_code home_subdir

  -- The loop over the paths; `hides` are the flags that leave a home subfolder out.
  unfoldable pub path_calls : Flags → String → List Flag → List FilesystemPath → List Call
  path_calls f text hides [] = []
  path_calls f text hides (p ∷ ps) =
      let rest = path_calls f text hides ps in
      if f filesystem_full
      then rest
      else if any_flag hides f && is_home_subdir p
      then rest
      else path_call f text p ∷ rest
