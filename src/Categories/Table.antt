-- ===== src/Categories/Table.antt =====
-- src/bz-category-flags.c and .h. A word of flags is the function that says which bits are set;
-- g_ascii_strdown is the parameter `strdown`.
use spacedbazaar.Common.{
  ℕ, Bool, false, ◌||◌, List, [], ◌∷◌, Option, none, some, Text, codes, text_eq, if◌then◌else◌,
  ◌==◌,
}

pub data Category : Type 0 where
  audiovideo development education game graphics network office science system : Category
  utility trending popular recently_added recently_updated mobile adwaita kde : Category

unfoldable pub category_bit : Category → ℕ
category_bit audiovideo = 0
category_bit development = 1
category_bit education = 2
category_bit game = 3
category_bit graphics = 4
category_bit network = 5
category_bit office = 6
category_bit science = 7
category_bit system = 8
category_bit utility = 9
category_bit trending = 10
category_bit popular = 11
category_bit recently_added = 12
category_bit recently_updated = 13
category_bit mobile = 14
category_bit adwaita = 15
category_bit kde = 16

abbrev pub CategoryFlags : Type 0
CategoryFlags = Category → Bool

abbrev pub no_categories : CategoryFlags
no_categories k = false

-- `flags | flag`.
unfoldable pub or_flag : CategoryFlags → Category → CategoryFlags
or_flag flags c k = flags k || (category_bit c == category_bit k)

abbrev pub name_flag_map : List (Text × Category)
name_flag_map =
    (codes "audiovideo", audiovideo)
    ∷ (codes "development", development)
    ∷ (codes "education", education)
    ∷ (codes "game", game)
    ∷ (codes "graphics", graphics)
    ∷ (codes "network", network)
    ∷ (codes "office", office)
    ∷ (codes "science", science)
    ∷ (codes "system", system)
    ∷ (codes "utility", utility)
    ∷ (codes "trending", trending)
    ∷ (codes "popular", popular)
    ∷ (codes "recently-added", recently_added)
    ∷ (codes "recently-updated", recently_updated)
    ∷ (codes "mobile", mobile)
    ∷ (codes "adwaita", adwaita)
    ∷ (codes "kde", kde)
    ∷ []

-- The loop over the table.
unfoldable pub find_flag : List (Text × Category) → Text → Option Category
find_flag [] name = none
find_flag ((key, c) ∷ rows) name =
    let rest = find_flag rows name in if text_eq key name then some c else rest

abbrev pub or_found : CategoryFlags → Option Category → CategoryFlags
or_found flags none = flags
or_found flags (some c) = or_flag flags c

unfoldable pub bz_category_flags_add : (Text → Text) → CategoryFlags → Option Text → CategoryFlags
bz_category_flags_add strdown flags none = flags
bz_category_flags_add strdown flags (some name) =
    or_found flags (find_flag name_flag_map (strdown name))

abbrev pub has_found : CategoryFlags → Option Category → Bool
has_found flags none = false
has_found flags (some c) = flags c

unfoldable pub bz_category_flags_has_name : CategoryFlags → Option Text → Bool
bz_category_flags_has_name flags none = false
bz_category_flags_has_name flags (some name) = has_found flags (find_flag name_flag_map name)

abbrev pub only_found : Option Category → CategoryFlags
only_found none = no_categories
only_found (some c) = or_flag no_categories c

unfoldable pub bz_category_flags_from_name : (Text → Text) → Option Text → CategoryFlags
bz_category_flags_from_name strdown none = no_categories
bz_category_flags_from_name strdown (some name) =
    only_found (find_flag name_flag_map (strdown name))
