-- ===== src/Safety/Order.antt =====
-- src/safety-calculator.c, bz_safety_calculator_get_top_icon: the order of the icons.
use spacedbazaar.Common.{
  true, false, List, [], ◌∷◌, ◌++◌, Option, none, some, Text, text_eq, if◌then◌else◌, ◌==◌, ltb,
  length, get_elem?, ◌≡◌, refl, sym, ap, ◌∙◌, inl, inr, Bool-cases, Option-cases,
}
use spacedbazaar.Permissions.Invariant.{Gives}
use spacedbazaar.Safety.Rows.{Importance, importance_code, Row}
use spacedbazaar.Safety.Labels.{Locale}
use spacedbazaar.Safety.Analyze.{Entry}
use spacedbazaar.Safety.Services.{analyze_entry}
use spacedbazaar.Safety.Risk.{AllKnown, analyze_entry-some}
use spacedbazaar.Safety.Icons.{
  priorities, named, is_duplicate, put_icon, visit_row, visit_rows, visit_priorities, get_top_icon,
}

-- The names of the rows' icons, by falling importance, and in the order of the rows within one.
abbrev or_skip : Option Text → List Text → List Text
or_skip none xs = xs
or_skip (some x) xs = x ∷ xs

unfoldable pub icons_of : Importance → List Row → List Text
icons_of priority [] = []
icons_of priority (row ∷ rows) =
    let rest = icons_of priority rows in
    if importance_code row.importance == importance_code priority
    then or_skip (named row.icon_name) rest
    else rest

abbrev pub ranked_from : List Importance → List Row → List Text
ranked_from [] rows = []
ranked_from (p ∷ ps) rows = icons_of p rows ++ ranked_from ps rows

abbrev pub ranked : List Row → List Text
ranked rows = ranked_from priorities rows

-- The first name, and the first that differs from a given one.
abbrev pub first : List Text → Option Text
first [] = none
first (x ∷ xs) = some x

abbrev pub first_other : Text → List Text → Option Text
first_other a [] = none
first_other a (x ∷ xs) = let rest = first_other a xs in if text_eq a x then rest else some x

abbrev pub second : List Text → Option Text
second [] = none
second (x ∷ xs) = first_other x xs

-- The loops as one loop over the names.
abbrev puts : List Text → List Text → List Text
puts [] icons = icons
puts (x ∷ xs) icons =
    let rest = puts xs (put_icon x icons) in if ltb (length icons) 2 then rest else icons

puts-full : (xs icons : List Text) → ltb (length icons) 2 ≡ false → puts xs icons ≡ icons
puts-full [] icons h = refl
puts-full (x ∷ xs) icons h = rw h refl

puts-room :
    (x : Text) (xs icons : List Text)
    → ltb (length icons) 2 ≡ true
    → puts (x ∷ xs) icons ≡ puts xs (put_icon x icons)
puts-room x xs icons h = rw h refl

puts-append : (xs ys icons : List Text) → puts (xs ++ ys) icons ≡ puts ys (puts xs icons)
puts-append [] ys icons = refl
puts-append (x ∷ xs) ys icons = elim (Bool-cases (ltb (length icons) 2)) [
  | inl room ↦ rw room (puts-append xs ys (put_icon x icons))
  | inr full ↦ rw full (sym (puts-full ys icons full))
]

visit_rows-puts :
    (p : Importance) (rows : List Row) (icons : List Text)
    → visit_rows p rows icons ≡ puts (icons_of p rows) icons
unfolding visit_rows visit_row icons_of
visit_rows-puts p [] icons = refl
visit_rows-puts p (row ∷ rows) icons = elim (Bool-cases (ltb (length icons) 2)) [
  | inl room ↦ elim (Bool-cases (importance_code row.importance == importance_code p)) [
    | inl level ↦ elim (Option-cases (named row.icon_name)) [
      | inl no_name ↦ rw (room, level, no_name) (visit_rows-puts p rows icons)
      | inr (x, name) ↦
          rw (room, level, name)
            (visit_rows-puts p rows (put_icon x icons)
              ∙ sym (puts-room x (icons_of p rows) icons room))
    ]
    | inr other ↦ rw (room, other) (visit_rows-puts p rows icons)
  ]
  | inr full ↦ rw full (sym (puts-full (icons_of p (row ∷ rows)) icons full))
]

visit_priorities-puts :
    (ps : List Importance) (rows : List Row) (icons : List Text)
    → visit_priorities ps rows icons ≡ puts (ranked_from ps rows) icons
unfolding visit_priorities
visit_priorities-puts [] rows icons = refl
visit_priorities-puts (p ∷ ps) rows icons = elim (Bool-cases (ltb (length icons) 2)) [
  | inl room ↦ rw room (
      visit_priorities-puts ps rows (visit_rows p rows icons)
      ∙ ap (puts (ranked_from ps rows)) (visit_rows-puts p rows icons)
      ∙ sym (puts-append (icons_of p rows) (ranked_from ps rows) icons))
  | inr full ↦ rw full (sym (puts-full (icons_of p rows ++ ranked_from ps rows) icons full))
]

-- Once there is one icon, the next is the first other one.
puts-one :
    (a : Text) (xs : List Text)
    → (get_elem? (puts xs (a ∷ [])) 0 ≡ some a)
      × (get_elem? (puts xs (a ∷ [])) 1 ≡ first_other a xs)
unfolding put_icon is_duplicate
puts-one a [] = (refl, refl)
puts-one a (x ∷ xs) = elim (Bool-cases (text_eq a x)) [
  | inl same ↦ rw same (puts-one a xs)
  | inr other ↦ rw (other, puts-full xs (a ∷ x ∷ []) refl) (refl, refl)
]

-- With no icon yet, they are the first name and the first other one.
puts-two :
    (xs : List Text)
    → (get_elem? (puts xs []) 0 ≡ first xs) × (get_elem? (puts xs []) 1 ≡ second xs)
unfolding put_icon is_duplicate
puts-two [] = (refl, refl)
puts-two (x ∷ xs) = puts-one x xs

-- Where every bus policy of the entry's permissions is at least `see`, its rows are computed without
-- an abort, and the two top icons are the first name of an icon and the first one that differs from
-- it, among the rows' icons that have a name, taken by falling importance (important, warning,
-- information) and within one in the order of the rows; NULL stands where there is none.
pub get_top_icon-ranked :
    (l : Locale) (e : Entry)
    → AllKnown e.permissions
    → Gives
        (λ rows.
          (get_top_icon l e 0 ≡ some (first (ranked rows)))
          × (get_top_icon l e 1 ≡ some (second (ranked rows))))
        (analyze_entry l e)
unfolding get_top_icon
get_top_icon-ranked l e k =
    let (rows, h) = analyze_entry-some l e k in
    let loops = visit_priorities-puts priorities rows [] in
    let two = puts-two (ranked rows) in
    (rows, (h, (rw (h, loops) (ap some two.0), rw (h, loops) (ap some two.1))))
