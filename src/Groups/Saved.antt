-- ===== src/Groups/Saved.antt =====
-- src/bz-entry-group.c: bz_entry_group_serialize and bz_entry_group_deserialize. A dictionary is the
-- list of its keys and values; an icon's variant is a number, as the icon is.
use spacedbazaar.Common.{
  ℕ, suc, Bool, true, false, List, [], ◌∷◌, ◌++◌, Option, none, some, Text, codes, text_eq, ℤ, pos,
  if◌then◌else◌, get_elem?,
}
use spacedbazaar.Categories.Table.{CategoryFlags, no_categories}
use spacedbazaar.Groups.State.{StateFlags, Details, EntryGroup, or_empty, append_addon_group_id}

pub data Variant : Type 0 where
  string : Text → Variant
  boolean : Bool → Variant
  number : ℕ → Variant
  integer : ℤ → Variant
  category_word : CategoryFlags → Variant
  strings : List Text → Variant
  words : List StateFlags → Variant
  icon_variant : ℕ → Variant

abbrev pub Entries : Type 0
Entries = List (Text × Variant)

-- What GLib's getters answer; for a value of another type it is NULL or 0.
abbrev pub dup_string : Variant → Option Text
dup_string (string s) = some s
dup_string _ = none

abbrev pub get_boolean : Variant → Bool
get_boolean (boolean b) = b
get_boolean _ = false

abbrev pub get_number : Variant → ℕ
get_number (number n) = n
get_number _ = 0

abbrev pub get_integer : Variant → ℤ
get_integer (integer i) = i
get_integer _ = pos 0

abbrev pub get_categories : Variant → CategoryFlags
get_categories (category_word w) = w
get_categories _ = no_categories

abbrev pub get_strings : Variant → List Text
get_strings (strings ss) = ss
get_strings _ = []

abbrev pub get_words : Variant → List StateFlags
get_words (words ws) = ws
get_words _ = []

abbrev pub save_text : Text → Option Text → Entries
save_text key none = []
save_text key (some s) = (key, string s) ∷ []

-- The arrays of the entries: `none` is a read of state_flags out of its range, and a version that is
-- missing is empty.
abbrev pub state_rows : List StateFlags → List Text → ℕ → Option (List StateFlags)
state_rows flags [] i = some []
state_rows flags (s ∷ ids) i =
    let rest = state_rows flags ids (suc i) in
    elim (get_elem? flags i) [
      | none ↦ none
      | some f ↦ elim rest [ none ↦ none | some fs ↦ some (f ∷ fs) ]
    ]

abbrev pub version_rows : List Text → List Text → ℕ → List Text
version_rows versions [] i = []
version_rows versions (s ∷ ids) i =
    or_empty (get_elem? versions i) ∷ version_rows versions ids (suc i)

abbrev pub save_rows : List Text → List Text → List StateFlags → Option Entries
save_rows [] versions flags = some []
save_rows (s ∷ ids) versions flags = elim (state_rows flags (s ∷ ids) 0) [
  | none ↦ none
  | some rows ↦ some (
      (codes "unique-ids", strings (s ∷ ids))
      ∷ (codes "installed-versions", strings (version_rows versions (s ∷ ids) 0))
      ∷ (codes "state-flags", words rows)
      ∷ [])
]

abbrev pub save_addon_ids : Option (List Text) → Entries
save_addon_ids none = []
save_addon_ids (some []) = []
save_addon_ids (some (s ∷ ids)) = (codes "addon-group-ids", strings (s ∷ ids)) ∷ []

abbrev pub save_texts : EntryGroup → Entries
save_texts g =
    (codes "id", string (or_empty g.id))
    ∷ (codes "title", string (or_empty g.details.title))
    ∷ (save_text (codes "developer") g.details.developer
        ++ (save_text (codes "description") g.details.description
            ++ (save_text (codes "search-tokens") g.details.search_tokens
                ++ (save_text (codes "eol") g.eol
                    ++ (save_text (codes "light-accent-color") g.details.light_accent_color
                        ++ (save_text (codes "dark-accent-color") g.details.dark_accent_color
                            ++ save_text (codes "donation-url") g.details.donation_url))))))

abbrev pub save_plain : EntryGroup → Entries
save_plain g =
    (codes "is-floss", boolean g.details.is_floss)
    ∷ (codes "is-flathub", boolean g.details.is_flathub)
    ∷ (codes "is-verified", boolean g.details.is_verified)
    ∷ (codes "is-addon", boolean g.is_addon)
    ∷ (codes "searchable", boolean g.searchable)
    ∷ (codes "read-only", boolean g.read_only)
    ∷ (codes "installed-size", number g.details.installed_size)
    ∷ (codes "n-addons", number g.details.n_addons)
    ∷ (codes "categories", category_word g.details.categories)
    ∷ (codes "content-age-rating", number g.details.content_age_rating)
    ∷ (codes "max-usefulness", integer g.max_usefulness)
    ∷ []

-- gtk_string_list_append, and the append of bz_entry_group_append_addon_group_id, for each string.
abbrev pub append_addon_ids : EntryGroup → List Text → EntryGroup
unfolding append_addon_group_id
append_addon_ids g [] = g
append_addon_ids g (s ∷ ids) = append_addon_ids (append_addon_group_id g s) ids

abbrev pub set_details : EntryGroup → Details → EntryGroup
set_details g d = record g { details = d }

-- g_icon_serialize and g_icon_deserialize are Gio's.
module _ (serialize_icon : ℕ → Option ℕ) (deserialize_icon : ℕ → Option ℕ) where
  abbrev pub save_icon : Option ℕ → Entries
  save_icon none = []
  save_icon (some i) = elim (serialize_icon i) [
    | none ↦ []
    | some v ↦ (codes "mini-icon", icon_variant v) ∷ []
  ]

  abbrev pub get_icon : Variant → Option ℕ
  get_icon (icon_variant v) = deserialize_icon v
  get_icon _ = none

  unfoldable pub bz_entry_group_serialize : EntryGroup → Option Entries
  bz_entry_group_serialize g = elim (save_rows g.unique_ids g.installed_versions g.state_flags) [
    | none ↦ none
    | some rows ↦ some (
        save_texts g
        ++ (save_plain g
            ++ (rows ++ (save_addon_ids g.addon_group_ids ++ save_icon g.details.mini_icon))))
  ]

  abbrev pub read_list : Text → Variant → EntryGroup → EntryGroup
  read_list key v g =
      if text_eq key (codes "unique-ids")
      then record g { unique_ids = g.unique_ids ++ get_strings v }
      else if text_eq key (codes "installed-versions")
      then record g { installed_versions = g.installed_versions ++ get_strings v }
      else if text_eq key (codes "state-flags")
      then record g { state_flags = g.state_flags ++ get_words v }
      else if text_eq key (codes "addon-group-ids")
      then append_addon_ids g (get_strings v)
      else if text_eq key (codes "mini-icon")
      then set_details g (record g.details { mini_icon = get_icon v })
      else g

  abbrev pub read_plain : Text → Variant → EntryGroup → EntryGroup
  read_plain key v g =
      if text_eq key (codes "is-floss")
      then set_details g (record g.details { is_floss = get_boolean v })
      else if text_eq key (codes "is-flathub")
      then set_details g (record g.details { is_flathub = get_boolean v })
      else if text_eq key (codes "is-verified")
      then set_details g (record g.details { is_verified = get_boolean v })
      else if text_eq key (codes "is-addon")
      then record g { is_addon = get_boolean v }
      else if text_eq key (codes "searchable")
      then record g { searchable = get_boolean v }
      else if text_eq key (codes "read-only")
      then record g { read_only = get_boolean v }
      else if text_eq key (codes "installed-size")
      then set_details g (record g.details { installed_size = get_number v })
      else if text_eq key (codes "n-addons")
      then set_details g (record g.details { n_addons = get_number v })
      else if text_eq key (codes "categories")
      then set_details g (record g.details { categories = get_categories v })
      else if text_eq key (codes "content-age-rating")
      then set_details g (record g.details { content_age_rating = get_number v })
      else if text_eq key (codes "max-usefulness")
      then record g { max_usefulness = get_integer v }
      else read_list key v g

  abbrev pub read_dict_entry : Text → Variant → EntryGroup → EntryGroup
  read_dict_entry key v g =
      if text_eq key (codes "id")
      then record g { id = dup_string v }
      else if text_eq key (codes "title")
      then set_details g (record g.details { title = dup_string v })
      else if text_eq key (codes "developer")
      then set_details g (record g.details { developer = dup_string v })
      else if text_eq key (codes "description")
      then set_details g (record g.details { description = dup_string v })
      else if text_eq key (codes "search-tokens")
      then set_details g (record g.details { search_tokens = dup_string v })
      else if text_eq key (codes "eol")
      then record g { eol = dup_string v }
      else if text_eq key (codes "light-accent-color")
      then set_details g (record g.details { light_accent_color = dup_string v })
      else if text_eq key (codes "dark-accent-color")
      then set_details g (record g.details { dark_accent_color = dup_string v })
      else if text_eq key (codes "donation-url")
      then set_details g (record g.details { donation_url = dup_string v })
      else read_plain key v g

  abbrev pub read_dict : Entries → EntryGroup → EntryGroup
  read_dict [] g = g
  read_dict ((key, v) ∷ es) g = read_dict es (read_dict_entry key v g)

  -- The application's own group is read-only.
  abbrev pub set_read_only : Text → EntryGroup → Option Text → EntryGroup × Bool
  set_read_only app g none = (g, false)
  set_read_only app g (some id) = (record g { read_only = text_eq id app }, true)

  unfoldable pub bz_entry_group_deserialize : Text → EntryGroup → Entries → EntryGroup × Bool
  bz_entry_group_deserialize app g import =
      let g' = read_dict import g in set_read_only app g' g'.id
