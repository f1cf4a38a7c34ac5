-- ===== src/Permissions/Store.antt =====
-- src/bz-app-permissions.c: the object and the operations that fill it. An operation on a sealed
-- object aborts the program (g_assert), which is `none`.
use mathlib.Core.List.{Perm}
use spacedbazaar.Common.{
  ℕ, zero, suc, Bool, true, false, ◌&&◌, List, [], ◌∷◌, ◌++◌, Option, none, some, Text, text_eq,
  strcmp0_eq, if◌then◌else◌, ◌==◌, leb,
}
use spacedbazaar.Permissions.Flags.{Flag, Flags, no_flags, set_flags, clear_flag, is_no_flags}

pub data PathType : Type 0 where
  system_root home_subdir host_os host_etc xdg_desktop xdg_documents xdg_music : PathType
  xdg_pictures xdg_public_share xdg_videos xdg_templates xdg_cache xdg_config : PathType
  xdg_data xdg_run custom : PathType

unfoldable pub path_code : PathType → ℕ
path_code system_root = 0
path_code home_subdir = 1
path_code host_os = 2
path_code host_etc = 3
path_code xdg_desktop = 4
path_code xdg_documents = 5
path_code xdg_music = 6
path_code xdg_pictures = 7
path_code xdg_public_share = 8
path_code xdg_videos = 9
path_code xdg_templates = 10
path_code xdg_cache = 11
path_code xdg_config = 12
path_code xdg_data = 13
path_code xdg_run = 14
path_code custom = 15

pub record FilesystemPath : Type 0 where
  pub kind : PathType
  pub subpath : Option Text

-- GBusType, as far as the metadata names it.
pub data BusType : Type 0 where
  bus_none bus_system bus_session : BusType

unfoldable pub bus_code : BusType → ℕ
bus_code bus_none = 0
bus_code bus_system = 1
bus_code bus_session = 2

pub data BusPermission : Type 0 where
  unknown nothing see talk own : BusPermission

unfoldable pub permission_code : BusPermission → ℕ
permission_code unknown = 0
permission_code nothing = 1
permission_code see = 2
permission_code talk = 3
permission_code own = 4

pub record BusPolicy : Type 0 where
  pub bus_type : BusType
  pub bus_name : Text
  pub permission : BusPermission

-- The arrays are NULL until something is put in.
pub record Permissions : Type 0 where
  pub is_sealed : Bool
  pub flags : Flags
  pub filesystem_read : Option (List FilesystemPath)
  pub filesystem_full : Option (List FilesystemPath)
  pub bus_policies : Option (List BusPolicy)

unfoldable pub new_permissions : Permissions
new_permissions = record {
  is_sealed = false;
  flags = no_flags;
  filesystem_read = none;
  filesystem_full = none;
  bus_policies = none;
}

-- The two qsort calls' orders are left open: a permutation of the array.
pub record Sorting : Type 0 where
  pub sort_paths : List FilesystemPath → List FilesystemPath
  pub sort_paths-perm : (ps : List FilesystemPath) → Perm (sort_paths ps) ps
  pub sort_policies : List BusPolicy → List BusPolicy
  pub sort_policies-perm : (ps : List BusPolicy) → Perm (sort_policies ps) ps

abbrev pub on_array {ℓ} : {A : Type ℓ} → (List A → List A) → Option (List A) → Option (List A)
on_array f none = none
on_array f (some xs) = some (f xs)

unfoldable pub seal : Sorting → Permissions → Permissions
seal s p = if p.is_sealed then p else record p {
  is_sealed = true;
  filesystem_read = on_array s.sort_paths p.filesystem_read;
  filesystem_full = on_array s.sort_paths p.filesystem_full;
  bus_policies = on_array s.sort_policies p.bus_policies;
}

abbrev pub array {ℓ} : {A : Type ℓ} → Option (List A) → List A
array none = []
array (some xs) = xs

abbrev is_nil {ℓ} : {A : Type ℓ} → List A → Bool
is_nil [] = true
is_nil (_ ∷ _) = false

unfoldable pub is_empty : Permissions → Bool
is_empty p =
    is_no_flags p.flags
    && (is_nil (array p.filesystem_read)
        && (is_nil (array p.filesystem_full) && is_nil (array p.bus_policies)))

abbrev unsealed : Permissions → Permissions → Option Permissions
unsealed p q = if p.is_sealed then none else some q

unfoldable pub bz_app_permissions_set_flags : Permissions → Flags → Option Permissions
bz_app_permissions_set_flags p flags = unsealed p (record p { flags = flags })

-- g_return_if_fail refuses the empty set of flags.
unfoldable pub add_flag : Permissions → List Flag → Option Permissions
add_flag p [] = some p
add_flag p (k ∷ ks) = unsealed p (record p { flags = set_flags (k ∷ ks) p.flags })

abbrev clear_flags : List Flag → Flags → Flags
clear_flags [] flags = flags
clear_flags (k ∷ ks) flags = clear_flags ks (clear_flag k flags)

unfoldable pub remove_flag : Permissions → List Flag → Option Permissions
remove_flag p [] = some p
remove_flag p (k ∷ ks) = unsealed p (record p { flags = clear_flags (k ∷ ks) p.flags })

unfoldable pub path_eq : FilesystemPath → FilesystemPath → Bool
path_eq a b = (path_code a.kind == path_code b.kind) && strcmp0_eq a.subpath b.subpath

-- `none` is DOES_NOT_CONTAIN.
abbrev pub next_index : Option ℕ → Option ℕ
next_index none = none
next_index (some i) = some (suc i)

unfoldable pub index_in : FilesystemPath → List FilesystemPath → Option ℕ
index_in p [] = none
index_in p (q ∷ qs) = if path_eq q p then some 0 else next_index (index_in p qs)

unfoldable pub array_index : Option (List FilesystemPath) → FilesystemPath → Option ℕ
array_index ps p = index_in p (array ps)

-- g_ptr_array_remove_index.
abbrev pub remove_index : List FilesystemPath → ℕ → List FilesystemPath
remove_index [] i = []
remove_index (p ∷ ps) zero = ps
remove_index (p ∷ ps) (suc i) = p ∷ remove_index ps i

abbrev pub or_null {ℓ} : {A : Type ℓ} → List A → Option (List A)
or_null [] = none
or_null (x ∷ xs) = some (x ∷ xs)

-- An array that the removal empties is cleared to NULL.
abbrev pub drop_index : Option (List FilesystemPath) → Option ℕ → Option (List FilesystemPath)
drop_index ps none = ps
drop_index ps (some i) = or_null (remove_index (array ps) i)

abbrev is_absent : Option ℕ → Bool
is_absent none = true
is_absent (some i) = false

unfoldable pub add_filesystem_read : FilesystemPath → Permissions → Option Permissions
add_filesystem_read path p = unsealed p (
    if is_absent (array_index p.filesystem_read path)
      && is_absent (array_index p.filesystem_full path)
    then record p { filesystem_read = some (array p.filesystem_read ++ path ∷ []) }
    else p)

unfoldable pub add_filesystem_full : FilesystemPath → Permissions → Option Permissions
add_filesystem_full path p = unsealed p (
    if is_absent (array_index p.filesystem_full path)
    then record p {
      filesystem_full = some (array p.filesystem_full ++ path ∷ []);
      filesystem_read = drop_index p.filesystem_read (array_index p.filesystem_read path);
    }
    else p)

-- MAX of two permissions.
unfoldable pub max_permission : BusPermission → BusPermission → BusPermission
max_permission a b = if leb (permission_code a) (permission_code b) then b else a

unfoldable pub same_bus : BusType → Text → BusPolicy → Bool
same_bus t name q = (bus_code q.bus_type == bus_code t) && text_eq q.bus_name name

-- The first policy on the name is raised; `none` where there is none.
unfoldable pub raise : BusType → Text → BusPermission → List BusPolicy → Option (List BusPolicy)
raise t name perm [] = none
raise t name perm (q ∷ qs) =
    if same_bus t name q
    then some (record q { permission = max_permission q.permission perm } ∷ qs)
    else elim (raise t name perm qs) [ none ↦ none | some rs ↦ some (q ∷ rs) ]

abbrev pub put_policy :
    Permissions → BusType → Text → BusPermission → Option (List BusPolicy) → Permissions
put_policy p t name perm (some qs) = record p { bus_policies = some qs }
put_policy p t name nothing none = p
put_policy p t name perm none = record p {
  bus_policies =
      some
        (array p.bus_policies ++ record { bus_type = t; bus_name = name; permission = perm } ∷ []);
}

-- The preconditions: a bus, a name, and a known permission.
abbrev pub is_policy : BusType → Text → BusPermission → Bool
is_policy bus_none name perm = false
is_policy t [] perm = false
is_policy t (b ∷ name) unknown = false
is_policy t (b ∷ name) perm = true

unfoldable pub add_bus_policy : BusType → Text → BusPermission → Permissions → Option Permissions
add_bus_policy t name perm p =
    if is_policy t name perm
    then unsealed p (put_policy p t name perm (raise t name perm (array p.bus_policies)))
    else some p

infixl 5 ◌>>=◌
abbrev pub ◌>>=◌ {ℓ κ} : {A : Type ℓ} {B : Type κ} → Option A → (A → Option B) → Option B
none >>= f = none
some a >>= f = f a
