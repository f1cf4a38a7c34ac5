-- ===== src/Safety/Rating.antt =====
-- src/safety-calculator.c: bz_safety_calculator_calculate_rating and
-- bz_safety_calculator_get_high_risk_groups; src/bz-transaction-dialog.c: get_entry_high_risk_groups.
use spacedbazaar.Common.{
  Bool, true, false, ◌||◌, List, [], ◌∷◌, Option, none, some, if◌then◌else◌, leb,
}
use spacedbazaar.Permissions.Flags.{
  any_flag, x11, filesystem_full, filesystem_read, home_full, home_read, escape_sandbox,
}
use spacedbazaar.Permissions.Store.{Permissions, ◌>>=◌}
use spacedbazaar.Safety.Rows.{
  Importance, unimportant, information, warning, important, importance_code, Row,
}
use spacedbazaar.Safety.Labels.{Locale}
use spacedbazaar.Safety.Analyze.{Entry}
use spacedbazaar.Safety.Services.{analyze_entry}

-- MAX of two importances.
unfoldable pub max_importance : Importance → Importance → Importance
max_importance a b = if leb (importance_code a) (importance_code b) then b else a

unfoldable pub max_rating : Importance → List Row → Importance
max_rating r [] = r
max_rating r (row ∷ rows) = max_rating (max_importance r row.importance) rows

-- The two steps down of an application under a free licence, in the order of the code.
unfoldable pub lower : Bool → Importance → Importance
lower true warning = information
lower true important = warning
lower _ r = r

unfoldable pub calculate_rating : Locale → Entry → Option Importance
calculate_rating l e =
    analyze_entry l e >>= λ rows. some (lower e.is_foss (max_rating unimportant rows))

-- The bits of BzHighRiskGroup.
pub record HighRiskGroup : Type 0 where
  pub x11_group : Bool
  pub disk_group : Bool

abbrev pub no_risk : HighRiskGroup
no_risk = record { x11_group = false; disk_group = false }

abbrev pub risks_of : Option Permissions → HighRiskGroup
risks_of none = no_risk
risks_of (some p) = record {
  x11_group = p.flags x11;
  disk_group =
      any_flag (filesystem_full ∷ filesystem_read ∷ home_full ∷ home_read ∷ escape_sandbox ∷ [])
        p.flags;
}

unfoldable pub get_high_risk_groups : Entry → HighRiskGroup
get_high_risk_groups e = risks_of e.permissions

unfoldable pub get_entry_high_risk_groups : Entry → HighRiskGroup
get_entry_high_risk_groups e = if e.is_foss then no_risk else get_high_risk_groups e

-- `risk_groups != BZ_HIGH_RISK_GROUP_NONE`.
unfoldable pub is_risky : HighRiskGroup → Bool
is_risky r = r.x11_group || r.disk_group
