-- ===== src/Permissions/Saved.antt =====
-- src/bz-app-permissions.c: bz_app_permissions_serialize and bz_app_permissions_deserialize. A
-- dictionary is the list of its entries.
use spacedbazaar.Common.{
  Bool, false, List, [], ◌∷◌, ◌++◌, map, Option, none, some, Text, if◌then◌else◌,
}
use spacedbazaar.Permissions.Flags.{Flag, Flags, no_flags, set_flag, is_no_flags}
use spacedbazaar.Permissions.Nicks.{EnumClass, find_nick, flag_class, path_class, permission_class}
use spacedbazaar.Permissions.Store.{
  bus_none, PathType, FilesystemPath, BusType, BusPermission, BusPolicy, Permissions, Sorting, seal,
  array,
}

-- An entry of the dictionary by its key; the other keys belong to other objects.
pub data Saved : Type 0 where
  saved_flags : List Text → Saved
  saved_read : List (Text × Text) → Saved
  saved_full : List (Text × Text) → Saved
  saved_policies : List (BusType × Text × Text) → Saved
  saved_other : Text → Saved

abbrev pub has_value : Option Flag → Flags → Bool
has_value none flags = false
has_value (some k) flags = flags k

abbrev pub flag_nicks : EnumClass (Option Flag) → Flags → List (Option Flag) → List Text
flag_nicks cls flags [] = []
flag_nicks cls flags (v ∷ vs) =
    let rest = flag_nicks cls flags vs in if has_value v flags then cls.nick v ∷ rest else rest

abbrev pub save_flags : EnumClass (Option Flag) → Flags → List Saved
save_flags cls flags =
    if is_no_flags flags then [] else saved_flags (flag_nicks cls flags cls.values) ∷ []

abbrev pub null_to_blank : Option Text → Text
null_to_blank none = []
null_to_blank (some s) = s

abbrev pub saved_path : EnumClass PathType → FilesystemPath → Text × Text
saved_path cls p = (cls.nick p.kind, null_to_blank p.subpath)

abbrev pub save_paths :
    EnumClass PathType → (List (Text × Text) → Saved) → Option (List FilesystemPath) → List Saved
save_paths cls key none = []
save_paths cls key (some []) = []
save_paths cls key (some (p ∷ ps)) = key (map (saved_path cls) (p ∷ ps)) ∷ []

abbrev pub saved_policy : EnumClass BusPermission → BusPolicy → BusType × Text × Text
saved_policy cls b = (b.bus_type, b.bus_name, cls.nick b.permission)

abbrev pub save_policies : EnumClass BusPermission → Option (List BusPolicy) → List Saved
save_policies cls none = []
save_policies cls (some []) = []
save_policies cls (some (b ∷ bs)) = saved_policies (map (saved_policy cls) (b ∷ bs)) ∷ []

unfoldable pub bz_app_permissions_serialize : Permissions → List Saved
bz_app_permissions_serialize p =
    save_flags flag_class p.flags
    ++ (save_paths path_class saved_read p.filesystem_read
        ++ (save_paths path_class saved_full p.filesystem_full
            ++ save_policies permission_class p.bus_policies))

abbrev pub or_value : Option (Option Flag) → Flags → Flags
or_value none flags = flags
or_value (some none) flags = flags
or_value (some (some k)) flags = set_flag k flags

abbrev pub load_flags : EnumClass (Option Flag) → List Text → Flags → Flags
load_flags cls [] flags = flags
load_flags cls (s ∷ ss) flags = load_flags cls ss (or_value (find_nick cls.nick s cls.values) flags)

abbrev pub blank_to_null : Text → Option Text
blank_to_null [] = none
blank_to_null (c ∷ s) = some (c ∷ s)

abbrev pub add_path : Option PathType → Text → List FilesystemPath → List FilesystemPath
add_path none s ps = ps
add_path (some k) s ps = record { kind = k; subpath = blank_to_null s } ∷ ps

abbrev pub load_paths : EnumClass PathType → List (Text × Text) → List FilesystemPath
load_paths cls [] = []
load_paths cls ((type_nick, s) ∷ rows) =
    add_path (find_nick cls.nick type_nick cls.values) s (load_paths cls rows)

-- bz_bus_policy_new: `none` is the NULL that its two guards answer.
unfoldable pub bz_bus_policy_new : BusType → Text → BusPermission → Option BusPolicy
bz_bus_policy_new bus_none name q = none
bz_bus_policy_new t [] q = none
bz_bus_policy_new t (c ∷ name) q =
    let policy : BusPolicy = record { bus_type = t; bus_name = c ∷ name; permission = q } in
    some policy

-- The policy is put in front of those of the later rows. Here and below `none` is that a NULL is put
-- in the array, which the comparison of the sort reads as soon as there is another policy.
abbrev pub put_loaded : Option BusPolicy → Option (List BusPolicy) → Option (List BusPolicy)
put_loaded none later = none
put_loaded (some b) none = none
put_loaded (some b) (some bs) = some (b ∷ bs)

abbrev pub add_policy :
    Option BusPermission → BusType → Text → Option (List BusPolicy) → Option (List BusPolicy)
add_policy none t name later = later
add_policy (some q) t name later = put_loaded (bz_bus_policy_new t name q) later

abbrev pub load_policies :
    EnumClass BusPermission → List (BusType × Text × Text) → Option (List BusPolicy)
load_policies cls [] = some []
load_policies cls ((t, name, permission_nick) ∷ rows) =
    add_policy (find_nick cls.nick permission_nick cls.values) t name (load_policies cls rows)

abbrev pub with_policies : Permissions → Option (List BusPolicy) → Option Permissions
with_policies p none = none
with_policies p (some bs) = some (record p { bus_policies = some (array p.bus_policies ++ bs) })

abbrev pub load : Permissions → Saved → Option Permissions
load p (saved_flags ns) = some (record p { flags = load_flags flag_class ns no_flags })
load p (saved_read rows) =
    some
      (record p { filesystem_read = some (array p.filesystem_read ++ load_paths path_class rows) })
load p (saved_full rows) =
    some
      (record p { filesystem_full = some (array p.filesystem_full ++ load_paths path_class rows) })
load p (saved_policies rows) = with_policies p (load_policies permission_class rows)
load p (saved_other key) = some p

abbrev pub load_all : Permissions → List Saved → Option Permissions
load_all p [] = some p
load_all p (s ∷ ss) = elim (load p s) [ none ↦ none | some q ↦ load_all q ss ]

unfoldable pub bz_app_permissions_deserialize :
    Sorting → Permissions → List Saved → Option Permissions
bz_app_permissions_deserialize s p import = elim (load_all p import) [
  | none ↦ none
  | some q ↦ some (seal s q)
]
