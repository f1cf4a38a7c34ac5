-- ===== src/Permissions/Metadata.antt =====
-- src/bz-app-permissions.c: bz_app_permissions_new_from_metadata as a whole.
use spacedbazaar.Common.{[], ◌∷◌, Option, some, if◌then◌else◌}
use spacedbazaar.Permissions.Flags.{any_flag, system_bus, session_bus}
use spacedbazaar.Permissions.Store.{
  bus_system, bus_session, Permissions, new_permissions, Sorting, seal,
  bz_app_permissions_set_flags, ◌>>=◌,
}
use spacedbazaar.Permissions.Context.{Metadata, context_flags}
use spacedbazaar.Permissions.Filesystems.{Parsed, add_filesystems}
use spacedbazaar.Permissions.Buses.{add_group}

unfoldable pub add_buses : Metadata → Parsed → Option Parsed
add_buses m (flags, p) =
    if any_flag (system_bus ∷ session_bus ∷ []) flags
    then some (flags, p)
    else (add_group m.name bus_session session_bus m.session_policies (flags, p)
        >>= add_group m.name bus_system system_bus m.system_policies)

unfoldable pub bz_app_permissions_new_from_metadata : Sorting → Metadata → Option Permissions
bz_app_permissions_new_from_metadata s m = do
  a ← add_filesystems m.filesystems (context_flags m, new_permissions)
  (flags, p) ← add_buses m a
  q ← bz_app_permissions_set_flags p flags
  some (seal s q)
