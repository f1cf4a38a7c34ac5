-- ===== src/Safety/Services.antt =====
-- src/safety-calculator.c, bz_safety_calculator_analyze_entry: the bus policies, and the whole.
use spacedbazaar.Common.{
  Bool, true, false, not, ◌&&◌, ◌||◌, List, [], ◌∷◌, ◌++◌, Option, none, some, Text, codes, text_eq,
  if◌then◌else◌,
}
use spacedbazaar.Permissions.Flags.{
  Flags, any_flag, filesystem_full, filesystem_read, home_full, home_read, downloads_full,
  downloads_read, filesystem_other, system_bus, session_bus, bus_policy_other,
}
use spacedbazaar.Permissions.Store.{BusPolicy, Permissions, array, is_empty, ◌>>=◌}
use spacedbazaar.Safety.Rows.{
  unimportant, neutral, information, warning, Row, no_label, Call, is_null, add_rows,
}
use spacedbazaar.Safety.Labels.{
  Locale, format_bus_policy_title, format_bus_policy_subtitle, lookup_well_known_bus_policy,
}
use spacedbazaar.Safety.Analyze.{
  Entry, on, label, unknown_calls, device_calls, folder_calls, path_calls,
}

abbrev pub is_nil {ℓ} : {A : Type ℓ} → List A → Bool
is_nil [] = true
is_nil (_ ∷ _) = false

unfoldable pub is_system_tray : BusPolicy → Bool
is_system_tray q =
    text_eq q.bus_name (codes "org.kde.StatusNotifierWatcher")
    || text_eq q.bus_name (codes "com.canonical.indicator.application")

module _ (l : Locale) where
  -- The title and the description of a policy.
  abbrev texts_or : BusPolicy → Option (Text × Text) → Option (Text × Text)
  texts_or q (some known) = some known
  texts_or q none =
      format_bus_policy_subtitle l q.permission >>= λ d. some (format_bus_policy_title l q, d)

  unfoldable pub policy_texts : BusPolicy → Option (Text × Text)
  policy_texts q = texts_or q (lookup_well_known_bus_policy l q.bus_name)

  abbrev policy_call : Text × Text → Call
  policy_call (t, d) = record {
    has_permission = true;
    item_rating = warning;
    with_permission = record {
      icon = some (codes "emblem-system-symbolic");
      caption = some t;
      description = some d;
    };
    without_permission = no_label;
  }

  -- The loop over the policies; the Boolean is `has_system_tray`.
  unfoldable pub policy_calls : Bool → List BusPolicy → Option (List Call)
  policy_calls tray [] = some []
  policy_calls tray (q ∷ qs) = elim (is_system_tray q && tray) [
    | true ↦ policy_calls tray qs
    | false ↦ policy_texts q >>= λ t.
        policy_calls (tray || is_system_tray q) qs >>= λ rest. some (policy_call t ∷ rest)
  ]

  unfoldable pub no_filesystem_call : Permissions → Call
  no_filesystem_call p =
      on l
        (not (
            any_flag
              (filesystem_full ∷ filesystem_read ∷ filesystem_other ∷ home_full ∷ home_read
                ∷ downloads_full ∷ downloads_read ∷ [])
              p.flags)
          && (is_null p.filesystem_read && is_null p.filesystem_full))
        unimportant
        (label l "folder-symbolic" "No File System Access" "Cannot access the file system at all")

  unfoldable pub bus_calls : Flags → List Call
  bus_calls f =
      on l (f system_bus) warning (
        label l "emblem-system-symbolic" "Uses System Services"
          "Can request data from non-portal system services")
      ∷ on l (f session_bus) warning (
          label l "emblem-system-symbolic" "Uses Session Services"
            "Can request data from non-portal session services")
      ∷ []

  unfoldable pub no_service_call : Permissions → Call
  no_service_call p =
      on l
        (not (any_flag (system_bus ∷ session_bus ∷ bus_policy_other ∷ []) p.flags)
          && is_nil (array p.bus_policies))
        unimportant
        (label l "emblem-system-symbolic" "No Service Access"
          "Cannot access non-portal session or system services at all")

  unfoldable pub filesystem_calls : Permissions → List Call
  filesystem_calls p =
      path_calls l p.flags "Can read and write all data in the directory" (home_full ∷ [])
        (array p.filesystem_full)
      ++ (path_calls l p.flags "Can read all data in the directory"
            (filesystem_read ∷ home_full ∷ home_read ∷ []) (array p.filesystem_read)
          ++ no_filesystem_call p ∷ [])

  unfoldable pub permission_calls : Permissions → Option (List Call)
  permission_calls p = policy_calls false (array p.bus_policies) >>= λ policies. some (
      device_calls l (is_empty p) p.flags
      ++ (folder_calls l p.flags
          ++ (filesystem_calls p ++ (bus_calls p.flags ++ (policies ++ no_service_call p ∷ [])))))

  unfoldable pub entry_calls : Entry → List Call
  entry_calls e =
      on l e.is_verified unimportant (
        label l "verified-checkmark-symbolic" "Verified App Developer"
          "The developer of this app has been verified to be who they say they are")
      ∷ (if e.is_foss
          then record {
            has_permission = false;
            item_rating = neutral;
            with_permission = no_label;
            without_permission =
                label l "auditable-code-symbolic" "Auditable Code"
                  "The source code is public and can be independently audited, which makes the app more likely to be safe";
          }
          else on l true information (
              label l "proprietary-code-symbolic" "Proprietary Code"
                "The source code is not public, so it cannot be independently audited and might be unsafe"))
      ∷ []

  abbrev pub calls_for : Option Permissions → Option (List Call)
  calls_for none = some (unknown_calls l)
  calls_for (some p) = permission_calls p

  -- `none` is the abort of g_assert_not_reached.
  unfoldable pub analyze_entry : Entry → Option (List Row)
  analyze_entry e = calls_for e.permissions >>= λ calls. some (add_rows [] (calls ++ entry_calls e))
