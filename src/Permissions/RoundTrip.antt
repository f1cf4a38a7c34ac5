-- ===== src/Permissions/RoundTrip.antt =====
-- src/bz-app-permissions.c: what bz_app_permissions_deserialize gives back of what
-- bz_app_permissions_serialize wrote.
use spacedbazaar.Common.{
  false, List, [], ◌∷◌, ◌++◌, map, Option, none, some, ◌≡◌, refl, ◌∙◌, ap, inl, inr, Bool-cases,
  Option-cases, All, arith, sym,
}
use spacedbazaar.Permissions.Flags.{Flags, no_flags, is_no_flags}
use spacedbazaar.Permissions.Store.{
  FilesystemPath, BusPolicy, Permissions, new_permissions, Sorting, seal, array,
}
use spacedbazaar.Permissions.Nicks.{
  flag_class, path_class, permission_class, flag_class-IsFound, path_class-IsFound,
  permission_class-IsFound,
}
use spacedbazaar.Permissions.Saved.{
  with_policies, Saved, saved_read, saved_full, save_flags, save_paths, save_policies,
  bz_app_permissions_serialize, load, load_all, bz_app_permissions_deserialize,
}
use spacedbazaar.Permissions.SavedPaths.{normal_path, load_paths-saved, load_policies-saved, IsMade}
use spacedbazaar.Permissions.SavedFlags.{load_flags-saved, no_flags-saved}

-- An array that is empty is not written, and an empty subpath comes back as none.
abbrev pub kept_paths : Option (List FilesystemPath) → Option (List FilesystemPath)
kept_paths none = none
kept_paths (some []) = none
kept_paths (some (p ∷ ps)) = some (map normal_path (p ∷ ps))

abbrev pub kept_policies : Option (List BusPolicy) → Option (List BusPolicy)
kept_policies none = none
kept_policies (some []) = none
kept_policies (some (b ∷ bs)) = some (b ∷ bs)

abbrev filled :
    Flags
    → Option (List FilesystemPath)
    → Option (List FilesystemPath)
    → Option (List BusPolicy)
    → Permissions
filled flags r f b = record {
  is_sealed = false;
  flags = flags;
  filesystem_read = r;
  filesystem_full = f;
  bus_policies = b;
}

abbrev pub as_saved : Permissions → Permissions
as_saved p =
    filled p.flags (kept_paths p.filesystem_read) (kept_paths p.filesystem_full)
      (kept_policies p.bus_policies)

load_on :
    (p q : Permissions) (xs ys : List Saved)
    → load_all p xs ≡ some q
    → load_all p (xs ++ ys) ≡ load_all q ys
load_on p q [] ys e = let same : p ≡ q = ground (arith, e) in ap (λ r. load_all r ys) same
load_on p q (x ∷ xs) ys e = elim (Option-cases (load p x)) [
  | inl n ↦ absurd (ground (arith, n, e))
  | inr s ↦
      let rest : load_all s.0 xs ≡ some q =
        sym (ap (λ o. elim o [ none ↦ none | some r ↦ load_all r xs ]) s.1) ∙ e in
      ap (λ o. elim o [ none ↦ none | some r ↦ load_all r (xs ++ ys) ]) s.1
      ∙ load_on s.0 q xs ys rest
]

load-flags :
    (flags : Flags)
    → load_all (filled no_flags none none none) (save_flags flag_class flags)
      ≡ some (filled flags none none none)
load-flags flags = elim (Bool-cases (is_no_flags flags)) [
  | inl on ↦ rw on (ap (λ x. some (filled x none none none)) (no_flags-saved flags on))
  | inr off ↦ rw off (
      ap (λ x. some (filled x none none none))
        (load_flags-saved flag_class flag_class-IsFound flags))
]

load-read :
    (flags : Flags) (r : Option (List FilesystemPath))
    → load_all (filled flags none none none) (save_paths path_class saved_read r)
      ≡ some (filled flags (kept_paths r) none none)
load-read flags none = refl
load-read flags (some []) = refl
load-read flags (some (p ∷ ps)) =
    ap (λ l. some (filled flags (some l) none none))
      (load_paths-saved path_class path_class-IsFound (p ∷ ps))

load-full :
    (flags : Flags) (r f : Option (List FilesystemPath))
    → load_all (filled flags r none none) (save_paths path_class saved_full f)
      ≡ some (filled flags r (kept_paths f) none)
load-full flags r none = refl
load-full flags r (some []) = refl
load-full flags r (some (p ∷ ps)) =
    ap (λ l. some (filled flags r (some l) none))
      (load_paths-saved path_class path_class-IsFound (p ∷ ps))

load-policies :
    (flags : Flags) (r f : Option (List FilesystemPath)) (b : Option (List BusPolicy))
    → All IsMade (array b)
    → load_all (filled flags r f none) (save_policies permission_class b)
      ≡ some (filled flags r f (kept_policies b))
load-policies flags r f none made = refl
load-policies flags r f (some []) made = refl
load-policies flags r f (some (b ∷ bs)) made =
    ap (λ o. elim (with_policies (filled flags r f none) o) [ none ↦ none | some q ↦ some q ])
      (load_policies-saved permission_class permission_class-IsFound (b ∷ bs) made)

-- Permissions whose bus policies are such as bz_bus_policy_new makes, with a bus and a name, are
-- written, and read into a new object come back sealed, with the same flags and bus policies and the
-- same paths, except that an empty subpath comes back as no subpath and an array without elements as
-- no array. The nicks are the program's.
pub deserialize-serialize :
    (s : Sorting) (p : Permissions)
    → All IsMade (array p.bus_policies)
    → bz_app_permissions_deserialize s new_permissions (bz_app_permissions_serialize p)
      ≡ some (seal s (as_saved p))
unfolding bz_app_permissions_deserialize bz_app_permissions_serialize new_permissions
deserialize-serialize s p made =
    let flags = save_flags flag_class p.flags in
    let read = save_paths path_class saved_read p.filesystem_read in
    let full = save_paths path_class saved_full p.filesystem_full in
    let policies = save_policies permission_class p.bus_policies in
    let r = kept_paths p.filesystem_read in
    let f = kept_paths p.filesystem_full in
    ap (λ o. elim o [ none ↦ none | some q ↦ some (seal s q) ])
      (load_on (filled no_flags none none none) (filled p.flags none none none) flags
          (read ++ (full ++ policies)) (load-flags p.flags)
        ∙ load_on (filled p.flags none none none) (filled p.flags r none none) read
            (full ++ policies) (load-read p.flags p.filesystem_read)
        ∙ load_on (filled p.flags r none none) (filled p.flags r f none) full policies
            (load-full p.flags r p.filesystem_full)
        ∙ load-policies p.flags r f p.bus_policies made)
