-- ===== src/Permissions/Paths.antt =====
-- src/bz-app-permissions.c: app_permissions_get_array_index against membership of the arrays.
use mathlib.Core.Logic.Or
use mathlib.Core.List.{Mem, eq-or-mem_of_mem-cons, not-mem-nil, Perm}
use mathlib.Core.List.Perm
use spacedbazaar.Common.{
  ℕ, zero, suc, true, List, [], ◌∷◌, none, some, ◌≡◌, refl, sym, ap, subst, ◌∙◌, inl, inr, arith,
  strcmp0_eq_iff, Bool-cases, Option-cases,
}
use spacedbazaar.Permissions.Store.{
  PathType, system_root, home_subdir, host_os, host_etc, xdg_desktop, xdg_documents, xdg_music,
  xdg_pictures, xdg_public_share, xdg_videos, xdg_templates, xdg_cache, xdg_config, xdg_data,
  xdg_run, custom, path_code, FilesystemPath, path_eq, index_in, remove_index,
}

-- The way back from the number.
abbrev path_types : List PathType
path_types =
    system_root ∷ home_subdir ∷ host_os ∷ host_etc ∷ xdg_desktop ∷ xdg_documents ∷ xdg_music
    ∷ xdg_pictures ∷ xdg_public_share ∷ xdg_videos ∷ xdg_templates ∷ xdg_cache ∷ xdg_config
    ∷ xdg_data ∷ xdg_run ∷ []

abbrev path_at : ℕ → List PathType → PathType
path_at n [] = custom
path_at zero (t ∷ ts) = t
path_at (suc n) (t ∷ ts) = path_at n ts

abbrev path_of : ℕ → PathType
path_of n = path_at n path_types

path_of-path_code : (t : PathType) → path_of (path_code t) ≡ t
unfolding path_code
path_of-path_code system_root = refl
path_of-path_code home_subdir = refl
path_of-path_code host_os = refl
path_of-path_code host_etc = refl
path_of-path_code xdg_desktop = refl
path_of-path_code xdg_documents = refl
path_of-path_code xdg_music = refl
path_of-path_code xdg_pictures = refl
path_of-path_code xdg_public_share = refl
path_of-path_code xdg_videos = refl
path_of-path_code xdg_templates = refl
path_of-path_code xdg_cache = refl
path_of-path_code xdg_config = refl
path_of-path_code xdg_data = refl
path_of-path_code xdg_run = refl
path_of-path_code custom = refl

path_code-injective : (s t : PathType) → path_code s ≡ path_code t → s ≡ t
path_code-injective s t e = sym (path_of-path_code s) ∙ ap path_of e ∙ path_of-path_code t

pub path_eq→eq : (a b : FilesystemPath) → path_eq a b ≡ true → a ≡ b
unfolding path_eq
path_eq→eq a b h =
    let kinds : a.kind ≡ b.kind = path_code-injective a.kind b.kind (ground arith) in
    let subpaths : a.subpath ≡ b.subpath = (strcmp0_eq_iff a.subpath b.subpath).0 (ground arith) in
    λ i. record { kind = kinds i; subpath = subpaths i }

path_eq_refl : (a : FilesystemPath) → path_eq a a ≡ true
unfolding path_eq
path_eq_refl a = ground (arith, (strcmp0_eq_iff a.subpath a.subpath).1 refl)

pub index_in-absent :
    (p : FilesystemPath) (qs : List FilesystemPath) → index_in p qs ≡ none → ¬ Mem p qs
unfolding index_in
index_in-absent p [] e m = not-mem-nil m
index_in-absent p (q ∷ qs) e m = elim (Bool-cases (path_eq q p)) [
  | inl same ↦ absurd (ground (arith, e, same))
  | inr other ↦
      Or.elim (λ a b. elim a [ ]) (eq-or-mem_of_mem-cons m)
        (λ is. absurd (ground (arith, other, subst (λ x. path_eq x p ≡ true) is (path_eq_refl p))))
        (index_in-absent p qs (ground (arith, e, other)))
]

pub index_in-remove :
    (p : FilesystemPath) (qs : List FilesystemPath) (i : ℕ)
    → index_in p qs ≡ some i
    → Perm qs (p ∷ remove_index qs i)
unfolding index_in
index_in-remove p [] i e = absurd (ground (arith, e))
index_in-remove p (q ∷ qs) i e = elim (Bool-cases (path_eq q p)) [
  | inl same ↦
      let here : i ≡ 0 = ground (arith, e, same) in
      subst (λ k. Perm (q ∷ qs) (p ∷ remove_index (q ∷ qs) k)) (sym here)
        (subst (λ x. Perm (q ∷ qs) (x ∷ qs)) (path_eq→eq q p same) (Perm.refl (q ∷ qs)))
  | inr other ↦ elim (Option-cases (index_in p qs)) [
    | inl gone ↦ absurd (ground (arith, e, other, gone))
    | inr (j, found) ↦
        let there : i ≡ suc j = ground (arith, e, other, found) in
        subst (λ k. Perm (q ∷ qs) (p ∷ remove_index (q ∷ qs) k)) (sym there)
          (Perm.trans (Perm.cons q (index_in-remove p qs j found))
            (Perm.swap p q (remove_index qs j)))
  ]
]
