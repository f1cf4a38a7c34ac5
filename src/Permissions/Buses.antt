-- ===== src/Permissions/Buses.antt =====
-- src/bz-app-permissions.c, bz_app_permissions_new_from_metadata: the bus policies.
use spacedbazaar.Common.{
  ◌-◌, Bool, true, false, not, ◌&&◌, ◌||◌, List, [], ◌∷◌, ◌++◌, Option, none, some, Text, codes,
  text_eq, has_prefix, has_suffix, if◌then◌else◌, ◌==◌, leb, length, drop, take,
}
use spacedbazaar.Permissions.Flags.{
  Flag, set_flag, filesystem_full, settings, escape_sandbox, bus_policy_other,
}
use spacedbazaar.Permissions.Store.{
  BusType, bus_session, BusPermission, nothing, see, talk, own, bus_code, permission_code,
  add_bus_policy, ◌>>=◌,
}
use spacedbazaar.Permissions.Filesystems.{Parsed}

-- `g_str_has_prefix (s, p) && s[strlen (p)] == '.'`.
abbrev next_is_dot : Text → Bool
next_is_dot [] = false
next_is_dot (c ∷ s) = c == b'.'

abbrev is_below : Text → Text → Bool
is_below s p = has_prefix s p && next_is_dot (drop (length p) s)

abbrev mpris_prefix : Text
mpris_prefix = codes "org.mpris.MediaPlayer2."

-- Names that an application may always use on the session bus.
unfoldable pub is_own_name : Text → Text → Bool
is_own_name app_id name =
    text_eq name app_id
    || (is_below name app_id
        || (text_eq name (mpris_prefix ++ app_id)
            || (text_eq name (codes "org.freedesktop.DBus")
                || has_prefix name (codes "org.freedesktop.portal."))))

-- The id of a development build without its suffix.
unfoldable pub non_devel : Text → Option Text
non_devel app_id =
    if has_suffix app_id (codes ".Devel") then some (take (length app_id - 6) app_id) else none

unfoldable pub is_own_release : Option Text → Text → Bool
is_own_release none name = false
is_own_release (some app_id) name =
    text_eq name app_id || (is_below name app_id || text_eq name (mpris_prefix ++ app_id))

abbrev on_session : BusType → Bool
on_session bus_session = true
on_session _ = false

unfoldable pub is_exempt : Option Text → BusType → Text → Bool
unfolding is_own_name is_own_release
is_exempt none t name = false
is_exempt (some app_id) t name =
    on_session t && (is_own_name app_id name || is_own_release (non_devel app_id) name)

-- Another word leaves the policy out.
unfoldable pub policy_word : Text → Option BusPermission
policy_word s =
    if text_eq s (codes "none")
    then some nothing
    else if text_eq s (codes "see")
    then some see
    else if text_eq s (codes "talk")
    then some talk
    else if text_eq s (codes "own")
    then some own
    else none

pub record BusRow : Type 0 where
  pub bus_type : BusType
  pub bus_name : Text
  pub is_prefix : Bool
  pub at_least : BusPermission
  pub flag : Flag

-- `bus_policy_permissions`.
abbrev pub bus_policy_permissions : List BusRow
bus_policy_permissions =
    record {
      bus_type = bus_session;
      bus_name = codes "ca.desrt.dconf";
      is_prefix = false;
      at_least = talk;
      flag = settings;
    }
    ∷ record {
      bus_type = bus_session;
      bus_name = codes "org.freedesktop.Flatpak";
      is_prefix = false;
      at_least = talk;
      flag = escape_sandbox;
    }
    ∷ record {
      bus_type = bus_session;
      bus_name = codes "org.freedesktop.impl.portal.PermissionStore";
      is_prefix = false;
      at_least = talk;
      flag = escape_sandbox;
    }
    ∷ record {
      bus_type = bus_session;
      bus_name = codes "org.gtk.vfs.";
      is_prefix = true;
      at_least = talk;
      flag = filesystem_full;
    }
    ∷ []

unfoldable pub row_fits : BusRow → BusType → Text → BusPermission → Bool
row_fits r t name policy =
    (bus_code r.bus_type == bus_code t)
    && (((not r.is_prefix && text_eq name r.bus_name)
          || (r.is_prefix && has_prefix name r.bus_name))
        && leb (permission_code r.at_least) (permission_code policy))

unfoldable pub find_row : List BusRow → BusType → Text → BusPermission → Option Flag
find_row [] t name policy = none
find_row (r ∷ rows) t name policy =
    if row_fits r t name policy then some r.flag else find_row rows t name policy

abbrev pub apply_row : Option Flag → BusType → Text → BusPermission → Parsed → Option Parsed
apply_row (some k) t name policy (flags, p) = some (set_flag k flags, p)
apply_row none t name policy (flags, p) =
    add_bus_policy t name policy p >>= λ q. some (set_flag bus_policy_other flags, q)

abbrev pub apply_word : Option BusPermission → Option Text → BusType → Text → Parsed → Option Parsed
apply_word none app_id t name a = some a
apply_word (some policy) app_id t name a =
    if is_exempt app_id t name
    then some a
    else apply_row (find_row bus_policy_permissions t name policy) t name policy a

-- The loop over the keys of one group, with the assertion that each has a value.
unfoldable pub add_policies :
    Option Text → BusType → List (Text × Option Text) → Parsed → Option Parsed
add_policies app_id t [] a = some a
add_policies app_id t ((name, none) ∷ keys) a = none
add_policies app_id t ((name, some word) ∷ keys) a = do
  b ← apply_word (policy_word word) app_id t name a
  add_policies app_id t keys b

-- A bus that is open to the application is not filtered.
unfoldable pub add_group :
    Option Text → BusType → Flag → List (Text × Option Text) → Parsed → Option Parsed
add_group app_id t unfiltered keys (flags, p) =
    if flags unfiltered then some (flags, p) else add_policies app_id t keys (flags, p)
