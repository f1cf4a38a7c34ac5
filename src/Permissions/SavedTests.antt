-- ===== src/Permissions/SavedTests.antt =====
-- src/bz-app-permissions.c: a round trip of concrete permissions, with the program's nicks.
use spacedbazaar.Common.{[], ◌∷◌, some, codes, ◌≡◌, refl}
use spacedbazaar.Permissions.Flags.{no_flags, set_flag, network, x11}
use spacedbazaar.Permissions.Store.{
  Permissions, new_permissions, seal, bus_session, xdg_music, custom, talk,
}
use spacedbazaar.Permissions.Saved.{
  bz_bus_policy_new, bz_app_permissions_serialize, bz_app_permissions_deserialize,
}
use spacedbazaar.Permissions.RoundTrip.{as_saved, deserialize-serialize}
use spacedbazaar.Permissions.Tests.{unsorted}

-- Music and a part of it, and a policy.
abbrev some_permissions : Permissions
some_permissions = record new_permissions {
  flags = set_flag network (set_flag x11 no_flags);
  filesystem_read = some (
      record { kind = xdg_music; subpath = some [] }
      ∷ record { kind = custom; subpath = some (codes "/srv") }
      ∷ []);
  bus_policies =
      some (record { bus_type = bus_session; bus_name = codes "org.a.b"; permission = talk } ∷ []);
}

deserialize-serialize_example :
    bz_app_permissions_deserialize unsorted new_permissions
      (bz_app_permissions_serialize some_permissions)
    ≡ some (seal unsorted (as_saved some_permissions))
unfolding bz_bus_policy_new new_permissions
deserialize-serialize_example = deserialize-serialize unsorted some_permissions (refl, tt)
