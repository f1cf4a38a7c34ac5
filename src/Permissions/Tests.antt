-- ===== src/Permissions/Tests.antt =====
-- src/bz-app-permissions.c: the theorems at one application's metadata.
use mathlib.Core.List.Perm
use spacedbazaar.Common.{true, refl, [], ◌∷◌, none, some, codes, ◌≡◌, not, if◌then◌else◌}
use spacedbazaar.Permissions.Flags.{network, devices, input_devices, x11}
use spacedbazaar.Permissions.Store.{Sorting}
use spacedbazaar.Permissions.Context.{Metadata, HasPolicyValues, contains}
use spacedbazaar.Permissions.Metadata.{bz_app_permissions_new_from_metadata}
use spacedbazaar.Permissions.Invariant.{IsWellFormed, Gives}
use spacedbazaar.Permissions.Sources.{Coherent}
use spacedbazaar.Permissions.Result.{new_from_metadata-IsWellFormed, new_from_metadata-flags}

abbrev pub unsorted : Sorting
unsorted = record {
  sort_paths = λ ps. ps;
  sort_paths-perm = Perm.refl;
  sort_policies = λ ps. ps;
  sort_policies-perm = Perm.refl;
}

abbrev pub player : Metadata
player = record {
  name = some (codes "org.example.Player.Devel");
  sockets = some (codes "x11" ∷ codes "pulseaudio" ∷ []);
  devices_list = some (codes "all" ∷ []);
  shared = some (codes "network" ∷ []);
  filesystems = some (
      codes "home:ro"
      ∷ codes "home"
      ∷ codes "xdg-music:ro"
      ∷ codes "xdg-music"
      ∷ codes "/opt/x"
      ∷ []);
  session_policies =
      (codes "org.kde.kdeconnect", some (codes "talk"))
      ∷ (codes "ca.desrt.dconf", some (codes "talk"))
      ∷ (codes "org.example.Player", some (codes "own"))
      ∷ (codes "org.example.Other", some (codes "none"))
      ∷ [];
  system_policies = (codes "org.example.Daemon", some (codes "see")) ∷ [];
}

pub player-HasPolicyValues : HasPolicyValues player
player-HasPolicyValues = (
  ((codes "talk", refl), ((codes "talk", refl), ((codes "own", refl), ((codes "none", refl), tt)))),
  ((codes "see", refl), tt),
)

new_from_metadata-IsWellFormed_example :
    Gives
      (λ p. (p.is_sealed ≡ true) × IsWellFormed p)
      (bz_app_permissions_new_from_metadata unsorted player)
new_from_metadata-IsWellFormed_example =
    new_from_metadata-IsWellFormed unsorted player player-HasPolicyValues

new_from_metadata-flags_example :
    Gives
      (λ p.
        Coherent p.flags
        × (p.flags network ≡ true)
        × (p.flags devices ≡ true)
        × (p.flags input_devices ≡ contains (codes "input") player.devices_list)
        × (p.flags x11 ≡ true))
      (bz_app_permissions_new_from_metadata unsorted player)
unfolding spacedbazaar.Permissions.Context.strv_has spacedbazaar.Common.text_eq
new_from_metadata-flags_example = new_from_metadata-flags unsorted player player-HasPolicyValues
