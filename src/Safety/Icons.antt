-- ===== src/Safety/Icons.antt =====
-- src/safety-calculator.c: bz_safety_calculator_get_top_icon.
use spacedbazaar.Common.{
  ℕ, Bool, false, ◌||◌, List, [], ◌∷◌, ◌++◌, Option, none, some, Text, text_eq, if◌then◌else◌, ◌==◌,
  ltb, length, get_elem?,
}
use spacedbazaar.Permissions.Store.{◌>>=◌}
use spacedbazaar.Safety.Rows.{Importance, information, warning, important, importance_code, Row}
use spacedbazaar.Safety.Labels.{Locale}
use spacedbazaar.Safety.Analyze.{Entry}
use spacedbazaar.Safety.Services.{analyze_entry}

abbrev pub priorities : List Importance
priorities = important ∷ warning ∷ information ∷ []

-- An icon's name that is neither NULL nor empty.
abbrev pub named : Option Text → Option Text
named none = none
named (some []) = none
named (some (b ∷ s)) = some (b ∷ s)

-- The loop over `icons` that looks for a duplicate.
unfoldable pub is_duplicate : Text → List Text → Bool
is_duplicate name [] = false
is_duplicate name (i ∷ icons) = text_eq i name || is_duplicate name icons

unfoldable pub put_icon : Text → List Text → List Text
put_icon name icons = if is_duplicate name icons then icons else icons ++ name ∷ []

abbrev pub put_named : Option Text → List Text → List Text
put_named none icons = icons
put_named (some name) icons = put_icon name icons

unfoldable pub visit_row : Importance → Row → List Text → List Text
visit_row priority row icons =
    if importance_code row.importance == importance_code priority
    then put_named (named row.icon_name) icons
    else icons

-- The loop over the rows, which stops at two icons.
unfoldable pub visit_rows : Importance → List Row → List Text → List Text
visit_rows priority [] icons = icons
visit_rows priority (row ∷ rows) icons =
    let rest = visit_rows priority rows (visit_row priority row icons) in
    if ltb (length icons) 2 then rest else icons

-- The loop over the priorities.
unfoldable pub visit_priorities : List Importance → List Row → List Text → List Text
visit_priorities [] rows icons = icons
visit_priorities (p ∷ ps) rows icons =
    let rest = visit_priorities ps rows (visit_rows p rows icons) in
    if ltb (length icons) 2 then rest else icons

-- A negative index of the C function gives NULL as an index above 1 does.
unfoldable pub get_top_icon : Locale → Entry → ℕ → Option (Option Text)
get_top_icon l e index =
    if ltb 1 index
    then some none
    else (analyze_entry l e >>= λ rows.
        some (get_elem? (visit_priorities priorities rows []) index))
