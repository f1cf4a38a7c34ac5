-- ===== src/Safety/Rows.antt =====
-- src/safety-calculator.c: the rows and add_row_if_permission; src/bz-context-row.h: BzImportance.
use spacedbazaar.Common.{
  ℕ, Bool, true, false, not, ◌&&◌, List, [], ◌∷◌, ◌++◌, Option, none, some, Text, if◌then◌else◌,
}

pub data Importance : Type 0 where
  unimportant neutral information warning important : Importance

unfoldable pub importance_code : Importance → ℕ
importance_code unimportant = 0
importance_code neutral = 1
importance_code information = 2
importance_code warning = 3
importance_code important = 4

pub record Row : Type 0 where
  pub importance : Importance
  pub icon_name : Option Text
  pub title : Option Text
  pub subtitle : Option Text

-- An icon, a title and a description, each of which may be NULL.
pub record Label : Type 0 where
  pub icon : Option Text
  pub caption : Option Text
  pub description : Option Text

abbrev pub no_label : Label
no_label = record { icon = none; caption = none; description = none }

-- The arguments of one call of add_row_if_permission.
pub record Call : Type 0 where
  pub has_permission : Bool
  pub item_rating : Importance
  pub with_permission : Label
  pub without_permission : Label

abbrev pub is_null {ℓ} : {A : Type ℓ} → Option A → Bool
is_null none = true
is_null (some _) = false

unfoldable pub add_row_if_permission : List Row → Call → List Row
add_row_if_permission store c =
    if not c.has_permission && is_null c.without_permission.caption
    then store
    else (store
        ++ record {
          importance = if c.has_permission then c.item_rating else unimportant;
          icon_name =
              if c.has_permission then c.with_permission.icon else c.without_permission.icon;
          title =
              if c.has_permission then c.with_permission.caption else c.without_permission.caption;
          subtitle =
              if c.has_permission
              then c.with_permission.description
              else c.without_permission.description;
        }
          ∷ [])

unfoldable pub add_rows : List Row → List Call → List Row
add_rows store [] = store
add_rows store (c ∷ cs) = add_rows (add_row_if_permission store c) cs
