-- ===== src/Categories/Tests.antt =====
-- src/bz-category-flags.c: the theorem at two names.
use spacedbazaar.Common.{Text, [], ◌∷◌, some, codes, ◌≡◌, ◌||◌, ◌&&◌, text_eq}
use spacedbazaar.Categories.Table.{
  game, or_flag, no_categories, kde, bz_category_flags_add, bz_category_flags_has_name,
  bz_category_flags_from_name,
}
use spacedbazaar.Categories.Names.{is_known, bz_category_flags_add-has}

-- Lower case for the letters of one name.
abbrev lower_first : Text → Text
lower_first [] = []
lower_first (c ∷ s) = 103 ∷ s

bz_category_flags_add-has_example :
    (bz_category_flags_has_name
        (bz_category_flags_add lower_first (or_flag no_categories kde) (some (codes "Game")))
        (some (codes "game"))
      ≡ (bz_category_flags_has_name (or_flag no_categories kde) (some (codes "game"))
          || (is_known (codes "game") && text_eq (codes "game") (lower_first (codes "Game")))))
    × (bz_category_flags_add lower_first (or_flag no_categories kde) (some (codes "Game")) game ≡ (
        or_flag no_categories kde game
        || bz_category_flags_from_name lower_first (some (codes "Game")) game))
bz_category_flags_add-has_example =
    bz_category_flags_add-has lower_first (or_flag no_categories kde) (codes "Game") (codes "game")
      game
