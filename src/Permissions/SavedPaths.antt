-- ===== src/Permissions/SavedPaths.antt =====
-- src/bz-app-permissions.c: the rows of paths and policies as they are written and read back.
use spacedbazaar.Common.{All, List, [], ◌∷◌, map, some, ◌≡◌, refl, ◌∙◌, ap}
use spacedbazaar.Permissions.Store.{PathType, FilesystemPath, BusPermission, BusPolicy}
use spacedbazaar.Permissions.Nicks.{EnumClass, IsFound}
use spacedbazaar.Permissions.Saved.{
  bz_bus_policy_new, put_loaded, null_to_blank, saved_path, saved_policy, blank_to_null, load_paths,
  load_policies, add_path, add_policy,
}

-- The path without a subpath that is empty.
abbrev pub normal_path : FilesystemPath → FilesystemPath
normal_path p = record p { subpath = blank_to_null (null_to_blank p.subpath) }

pub load_paths-saved :
    (cls : EnumClass PathType) (f : IsFound cls) (ps : List FilesystemPath)
    → load_paths cls (map (saved_path cls) ps) ≡ map normal_path ps
load_paths-saved cls f [] = refl
load_paths-saved cls f (p ∷ ps) =
    ap (λ o. add_path o (null_to_blank p.subpath) (load_paths cls (map (saved_path cls) ps)))
      (f p.kind)
    ∙ ap (λ l. normal_path p ∷ l) (load_paths-saved cls f ps)

-- A policy that bz_bus_policy_new makes.
abbrev pub IsMade : BusPolicy → Type 0
IsMade b = bz_bus_policy_new b.bus_type b.bus_name b.permission ≡ some b

pub load_policies-saved :
    (cls : EnumClass BusPermission) (f : IsFound cls) (bs : List BusPolicy)
    → All IsMade bs
    → load_policies cls (map (saved_policy cls) bs) ≡ some bs
load_policies-saved cls f [] made = refl
load_policies-saved cls f (b ∷ bs) made =
    let rows = map (saved_policy cls) bs in
    ap (λ o. add_policy o b.bus_type b.bus_name (load_policies cls rows)) (f b.permission)
    ∙ ap (λ n. put_loaded n (load_policies cls rows)) made.0
    ∙ ap (put_loaded (some b)) (load_policies-saved cls f bs made.1)
