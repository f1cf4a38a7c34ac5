-- ===== src/Safety/Risk.antt =====
-- src/safety-calculator.c: the rating against the risks that src/bz-transaction-dialog.c warns of.
use spacedbazaar.Safety.Rows.{Row}
use spacedbazaar.Common.{
  List, Bool, true, false, not, ◌&&◌, ◌||◌, [], ◌∷◌, ◌++◌, Option, none, some, ◌≡◌, refl, sym, ap,
  ◌∙◌, inl, inr, arith, All, Bool-cases, ◌↔◌,
}
use spacedbazaar.Permissions.Flags.{
  Flags, any_flag, system_bus, session_bus, x11, escape_sandbox, filesystem_full, home_full,
  filesystem_read, home_read,
}
use spacedbazaar.Permissions.Store.{Permissions, Sorting, array}
use spacedbazaar.Permissions.Context.{Metadata, HasPolicyValues}
use spacedbazaar.Permissions.Metadata.{bz_app_permissions_new_from_metadata}
use spacedbazaar.Permissions.Invariant.{Known, Gives, Gives-bind}
use spacedbazaar.Permissions.Result.{new_from_metadata-IsWellFormed}
use spacedbazaar.Safety.Rows.{
  Importance, unimportant, neutral, information, warning, important, importance_code, add_rows,
}
use spacedbazaar.Safety.Labels.{Locale}
use spacedbazaar.Safety.Analyze.{Entry, unknown_calls}
use spacedbazaar.Safety.Services.{
  policy_calls, entry_calls, bus_calls, permission_calls, filesystem_calls, no_filesystem_call,
  no_service_call, analyze_entry, calls_for,
}
use spacedbazaar.Safety.Rating.{
  max_rating, lower, calculate_rating, get_high_risk_groups, get_entry_high_risk_groups, is_risky,
  risks_of,
}
use spacedbazaar.Safety.Critical.{
  is_top, criticals, is_top-max_rating, criticals-append, tops-add_rows, criticals-device_calls,
  criticals-folder_calls, criticals-path_calls, policy_calls-plain,
}

abbrev pub AllKnown : Option Permissions → Type 0
AllKnown none = Unit
AllKnown (some p) = All Known (array p.bus_policies)

module _ (l : Locale) where
  criticals-filesystem_calls : (p : Permissions) → criticals (filesystem_calls l p) ≡ false
  unfolding filesystem_calls no_filesystem_call is_top importance_code
  criticals-filesystem_calls p = simp (criticals-append, criticals-path_calls) (ground arith)

  criticals-bus_calls : (f : Flags) → criticals (bus_calls l f) ≡ false
  unfolding bus_calls is_top importance_code
  criticals-bus_calls f = ground (arith, Bool-cases (f system_bus), Bool-cases (f session_bus))

  no_service-plain : (p : Permissions) → criticals (no_service_call l p ∷ []) ≡ false
  unfolding no_service_call is_top importance_code
  no_service-plain p = ground arith

  criticals-entry_calls : (e : Entry) → criticals (entry_calls l e) ≡ false
  unfolding entry_calls is_top importance_code
  criticals-entry_calls e = elim (Bool-cases e.is_foss) [
    | inl free ↦ rw free (ground (arith, Bool-cases e.is_verified))
    | inr closed ↦ rw closed (ground (arith, Bool-cases e.is_verified))
  ]

  either :
      (f : Flags)
      → (f x11 || f escape_sandbox)
          || (any_flag (filesystem_full ∷ filesystem_read ∷ home_full ∷ home_read ∷ []) f || false)
        ≡ (f x11
            || any_flag
                (filesystem_full ∷ filesystem_read ∷ home_full ∷ home_read ∷ escape_sandbox ∷ [])
                f)
  unfolding any_flag
  either f =
      ground
        (arith, Bool-cases (f x11), Bool-cases (f escape_sandbox), Bool-cases (f filesystem_full))

  criticals-permission_calls :
      (p : Permissions)
      → All Known (array p.bus_policies)
      → Gives
          (λ cs. criticals cs ≡ (
            p.flags x11
            || any_flag
                (filesystem_full ∷ filesystem_read ∷ home_full ∷ home_read ∷ escape_sandbox ∷ [])
                p.flags))
          (permission_calls l p)
  unfolding permission_calls
  criticals-permission_calls p k =
      Gives-bind (policy_calls l false (array p.bus_policies)) _ (policy_calls-plain l false _ k)
        (λ ps h. (
          _,
          (
            refl,
            simp
                (
                  criticals-append, criticals-device_calls, criticals-folder_calls,
                  criticals-filesystem_calls, criticals-bus_calls, no_service-plain, h,
                )
                (either p.flags),
          ),
        ))

  unknown-plain : criticals (unknown_calls l) ≡ false
  unfolding unknown_calls is_top importance_code
  unknown-plain = refl

  criticals-calls_for :
      (e : Entry)
      → AllKnown e.permissions
      → Gives (λ cs. criticals cs ≡ is_risky (get_high_risk_groups e)) (calls_for l e.permissions)
  unfolding get_high_risk_groups is_risky
  criticals-calls_for e k = by_permissions e.permissions k
    where
      by_permissions :
          (o : Option Permissions)
          → AllKnown o
          → Gives
              (λ cs. criticals cs ≡ ((risks_of o).x11_group || (risks_of o).disk_group))
              (calls_for l o)
      by_permissions none k = (_, (refl, unknown-plain))
      by_permissions (some p) k = criticals-permission_calls p k

is_top-lower : (foss : Bool) (r : Importance) → is_top (lower foss r) ≡ (not foss && is_top r)
unfolding lower is_top importance_code
is_top-lower true unimportant = refl
is_top-lower true neutral = refl
is_top-lower true information = refl
is_top-lower true warning = refl
is_top-lower true important = refl
is_top-lower false unimportant = refl
is_top-lower false neutral = refl
is_top-lower false information = refl
is_top-lower false warning = refl
is_top-lower false important = refl

is_top→important : (r : Importance) → is_top r ≡ true → r ≡ important
unfolding is_top importance_code
is_top→important important h = refl
is_top→important unimportant h = absurd (ground (arith, h))
is_top→important neutral h = absurd (ground (arith, h))
is_top→important information h = absurd (ground (arith, h))
is_top→important warning h = absurd (ground (arith, h))

is_top-important : is_top important ≡ true
unfolding is_top importance_code
is_top-important = refl

is_top_iff : (r : Importance) (b : Bool) → is_top r ≡ b → (r ≡ important) ↔ (b ≡ true)
is_top_iff r b e = (λ h. sym e ∙ ap is_top h ∙ is_top-important, λ h. is_top→important r (e ∙ h))

is_top-unimportant : is_top unimportant ≡ false
unfolding is_top importance_code
is_top-unimportant = refl

risky-entry :
    (e : Entry)
    → is_risky (get_entry_high_risk_groups e) ≡ (not e.is_foss && is_risky (get_high_risk_groups e))
unfolding get_entry_high_risk_groups is_risky
risky-entry e = elim (Bool-cases e.is_foss) [
  | inl free ↦ rw free refl
  | inr closed ↦ rw closed refl
]

pub analyze_entry-some :
    (l : Locale) (e : Entry)
    → AllKnown e.permissions
    → (rows : List Row) × (analyze_entry l e ≡ some rows)
unfolding analyze_entry
analyze_entry-some l e k =
    let (cs, (found, risk)) = criticals-calls_for l e k in
    (add_rows [] (cs ++ entry_calls l e), rw found refl)

-- An entry is rated, without the abort of an unknown policy, where every bus policy of its
-- permissions is at least `see`; and the rating is the highest one exactly if the install dialog
-- warns of the entry: it is not under a free licence and has one of the risks.
pub calculate_rating-warns :
    (l : Locale) (e : Entry)
    → AllKnown e.permissions
    → Gives
        (λ r. (r ≡ important) ↔ (is_risky (get_entry_high_risk_groups e) ≡ true))
        (calculate_rating l e)
unfolding calculate_rating analyze_entry
calculate_rating-warns l e k =
    let (cs, (found, risk)) = criticals-calls_for l e k in
    let rows = add_rows [] (cs ++ entry_calls l e) in
    let r = lower e.is_foss (max_rating unimportant rows) in
    let rated : is_top r ≡ is_risky (get_entry_high_risk_groups e) =
      simp
        (
          is_top-lower,
          is_top-max_rating,
          is_top-unimportant,
          tops-add_rows,
          criticals-append,
          criticals-entry_calls l e,
          risk,
          risky-entry,
        )
        (ground (arith, Bool-cases (is_risky (get_high_risk_groups e)))) in
    rw found (r, (refl, is_top_iff r _ rated))

-- Permissions that are read from metadata in which every bus policy has a value are rated without
-- an abort, whatever the entry says of itself, and the rating is the highest one exactly if the
-- install dialog warns of the entry.
pub metadata-rating :
    (s : Sorting) (m : Metadata) (l : Locale) (verified foss : Bool)
    → HasPolicyValues m
    → Gives
        (λ p.
          let e : Entry = record { is_verified = verified; is_foss = foss; permissions = some p } in
          Gives
            (λ r. (r ≡ important) ↔ (is_risky (get_entry_high_risk_groups e) ≡ true))
            (calculate_rating l e))
        (bz_app_permissions_new_from_metadata s m)
metadata-rating s m l verified foss v =
    let (p, (e, (shut, (d, k)))) = new_from_metadata-IsWellFormed s m v in
    (p, (e, calculate_rating-warns l _ k))
