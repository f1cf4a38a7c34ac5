-- ===== src/Safety/Critical.antt =====
-- src/safety-calculator.c: which calls of add_row_if_permission add a row of the highest importance.
use Prim.Native.String.{String}
use spacedbazaar.Common.{
  ◌≤◌, Bool, false, ◌&&◌, ◌||◌, List, [], ◌∷◌, ◌++◌, ◌≡◌, refl, inl, inr, arith, All, Bool-cases,
  Option-cases, leb, ◌==◌,
}
use spacedbazaar.Permissions.Flags.{
  Flag, Flags, any_flag, x11, escape_sandbox, filesystem_full, home_full, filesystem_read,
  home_read, network,
}
use spacedbazaar.Permissions.Store.{
  FilesystemPath, BusPolicy, BusPermission, permission_code, unknown, nothing, see, talk, own,
}
use spacedbazaar.Permissions.Invariant.{Known, Gives, Gives-bind}
use spacedbazaar.Safety.Rows.{
  Importance, unimportant, neutral, information, warning, important, importance_code, Row, Call,
  is_null, add_row_if_permission, add_rows,
}
use spacedbazaar.Safety.Labels.{Locale, format_bus_policy_subtitle, lookup_well_known_bus_policy}
use spacedbazaar.Safety.Analyze.{fs_importance, device_calls, folder_calls, path_calls}
use spacedbazaar.Safety.Services.{policy_calls, policy_texts, is_system_tray}
use spacedbazaar.Safety.Rating.{max_importance, max_rating}

unfoldable pub is_top : Importance → Bool
is_top r = importance_code r == 4

abbrev pub tops : List Row → Bool
tops [] = false
tops (row ∷ rows) = is_top row.importance || tops rows

abbrev pub is_critical : Call → Bool
is_critical c = c.has_permission && is_top c.item_rating

abbrev pub criticals : List Call → Bool
criticals [] = false
criticals (c ∷ cs) = is_critical c || criticals cs

importance_bound : (r : Importance) → importance_code r ≤ 4
unfolding importance_code
importance_bound unimportant = omega arith
importance_bound neutral = omega arith
importance_bound information = omega arith
importance_bound warning = omega arith
importance_bound important = omega arith

is_top-max : (a b : Importance) → is_top (max_importance a b) ≡ (is_top a || is_top b)
unfolding is_top max_importance
is_top-max a b = ground (
  arith,
  importance_bound a,
  importance_bound b,
  Bool-cases (leb (importance_code a) (importance_code b)),
)

pub is_top-max_rating :
    (r : Importance) (rows : List Row) → is_top (max_rating r rows) ≡ (is_top r || tops rows)
unfolding max_rating
is_top-max_rating r [] = ground (arith, Bool-cases (is_top r))
is_top-max_rating r (row ∷ rows) = ground (
  arith,
  is_top-max_rating (max_importance r row.importance) rows,
  is_top-max r row.importance,
  Bool-cases (is_top r),
)

tops-append : (xs ys : List Row) → tops (xs ++ ys) ≡ (tops xs || tops ys)
tops-append [] ys = refl
tops-append (x ∷ xs) ys = ground (arith, tops-append xs ys, Bool-cases (is_top x.importance))

pub criticals-append : (xs ys : List Call) → criticals (xs ++ ys) ≡ (criticals xs || criticals ys)
criticals-append [] ys = refl
criticals-append (x ∷ xs) ys = ground (arith, criticals-append xs ys, Bool-cases (is_critical x))

tops-end :
    (store : List Row) (row : Row)
    → tops (store ++ row ∷ []) ≡ (tops store || is_top row.importance)
tops-end store row =
    ground (arith, tops-append store (row ∷ []), Bool-cases (is_top row.importance))

tops-add_row :
    (store : List Row) (c : Call)
    → tops (add_row_if_permission store c) ≡ (tops store || is_critical c)
unfolding add_row_if_permission is_top importance_code
tops-add_row store c = elim (Bool-cases c.has_permission) [
  | inl has ↦ rw has (tops-end store _)
  | inr lacks ↦ elim (Bool-cases (is_null c.without_permission.caption)) [
    | inl silent ↦ rw (lacks, silent) (ground (arith, Bool-cases (tops store)))
    | inr named ↦ rw (lacks, named) (tops-end store _)
  ]
]

pub tops-add_rows :
    (store : List Row) (cs : List Call) → tops (add_rows store cs) ≡ (tops store || criticals cs)
unfolding add_rows
tops-add_rows store [] = ground (arith, Bool-cases (tops store))
tops-add_rows store (c ∷ cs) = ground (
  arith,
  tops-add_rows (add_row_if_permission store c) cs,
  tops-add_row store c,
  Bool-cases (tops store),
)

fs_importance-top : (f : Flags) → is_top (fs_importance f) ≡ false
unfolding is_top importance_code
fs_importance-top f = elim (Bool-cases (f network)) [
  | inl online ↦ rw online refl
  | inr offline ↦ rw offline refl
]

module _ (l : Locale) where
  pub criticals-device_calls :
      (empty : Bool) (f : Flags) → criticals (device_calls l empty f) ≡ (f x11 || f escape_sandbox)
  unfolding device_calls is_top importance_code
  criticals-device_calls empty f = elim (Bool-cases (f network)) [
    | inl online ↦ rw online (ground arith)
    | inr offline ↦ rw offline (ground arith)
  ]

  pub criticals-folder_calls :
      (f : Flags)
      → criticals (folder_calls l f)
        ≡ any_flag (filesystem_full ∷ filesystem_read ∷ home_full ∷ home_read ∷ []) f
  unfolding folder_calls any_flag is_top importance_code
  criticals-folder_calls f = elim (Bool-cases (f network)) [
    | inl online ↦ rw online (ground arith)
    | inr offline ↦ rw offline (ground arith)
  ]

  pub criticals-path_calls :
      (f : Flags) (text : String) (hides : List Flag) (ps : List FilesystemPath)
      → criticals (path_calls l f text hides ps) ≡ false
  unfolding path_calls
  criticals-path_calls f text hides [] = refl
  criticals-path_calls f text hides (p ∷ ps) =
      ground (arith, criticals-path_calls f text hides ps, fs_importance-top f)

  subtitle-some :
      (perm : BusPermission)
      → 2 ≤ permission_code perm
      → Gives (λ t. Unit {0}) (format_bus_policy_subtitle l perm)
  unfolding permission_code format_bus_policy_subtitle
  subtitle-some unknown h = absurd (omega (arith, h))
  subtitle-some nothing h = absurd (omega (arith, h))
  subtitle-some see h = (_, (refl, _))
  subtitle-some talk h = (_, (refl, _))
  subtitle-some own h = (_, (refl, _))

  policy_texts-some : (q : BusPolicy) → Known q → Gives (λ t. Unit {0}) (policy_texts l q)
  unfolding policy_texts
  policy_texts-some q h = elim (Option-cases (lookup_well_known_bus_policy l q.bus_name)) [
    | inl other ↦ rw other (
        Gives-bind (format_bus_policy_subtitle l q.permission) _ (subtitle-some q.permission h)
          (λ d u. (_, (refl, _))))
    | inr (t, known) ↦ rw known (t, (refl, _))
  ]

  pub policy_calls-plain :
      (tray : Bool) (qs : List BusPolicy)
      → All Known qs
      → Gives (λ cs. criticals cs ≡ false) (policy_calls l tray qs)
  unfolding policy_calls is_top importance_code
  policy_calls-plain tray [] k = ([], (refl, refl))
  policy_calls-plain tray (q ∷ qs) (k, ks) = elim (Bool-cases (is_system_tray q && tray)) [
    | inl again ↦ rw (again, policy_calls) (policy_calls-plain tray qs ks)
    | inr first ↦
        rw (first, policy_calls)
          (Gives-bind (policy_texts l q) _ (policy_texts-some q k) (λ t u.
            Gives-bind (policy_calls l (tray || is_system_tray q) qs) _
              (policy_calls-plain (tray || is_system_tray q) qs ks) (λ rest h. (_, (refl, h)))))
  ]
