-- ===== src/Groups/State.antt =====
-- src/bz-entry-group.c: the object. An `int` counter is a ℤ, and a word of EntryStateFlags is the
-- record of its six bits. An icon is the number of its object.
use spacedbazaar.Common.{
  ℕ, zero, suc, Bool, false, List, [], ◌∷◌, ◌++◌, Option, none, some, Text, text_eq, ℤ, pos, negsuc,
  if◌then◌else◌,
}
use spacedbazaar.Categories.Table.{CategoryFlags, no_categories}

-- EntryStateFlags.
pub record StateFlags : Type 0 where
  pub installable : Bool
  pub installable_available : Bool
  pub updatable : Bool
  pub updatable_available : Bool
  pub removable : Bool
  pub removable_available : Bool

abbrev pub no_state : StateFlags
no_state = record {
  installable = false;
  installable_available = false;
  updatable = false;
  updatable_available = false;
  removable = false;
  removable_available = false;
}

pub record Counters : Type 0 where
  pub n_installable : ℤ
  pub n_installable_available : ℤ
  pub n_updatable : ℤ
  pub n_updatable_available : ℤ
  pub n_removable : ℤ
  pub n_removable_available : ℤ

abbrev pub no_counters : Counters
no_counters = record {
  n_installable = pos 0;
  n_installable_available = pos 0;
  n_updatable = pos 0;
  n_updatable_available = pos 0;
  n_removable = pos 0;
  n_removable_available = pos 0;
}

-- What the group shows of its entries.
pub record Details : Type 0 where
  pub title : Option Text
  pub developer : Option Text
  pub description : Option Text
  pub mini_icon : Option ℕ
  pub is_floss : Bool
  pub light_accent_color : Option Text
  pub dark_accent_color : Option Text
  pub is_flathub : Bool
  pub is_verified : Bool
  pub search_tokens : Option Text
  pub installed_size : ℕ
  pub n_addons : ℕ
  pub donation_url : Option Text
  pub categories : CategoryFlags
  pub content_age_rating : ℕ

pub record EntryGroup : Type 0 where
  pub unique_ids : List Text
  pub installed_versions : List Text
  pub state_flags : List StateFlags
  pub id : Option Text
  pub eol : Option Text
  pub details : Details
  pub addon_group_ids : Option (List Text)
  pub max_usefulness : ℤ
  pub counters : Counters
  pub read_only : Bool
  pub searchable : Bool
  pub is_addon : Bool
  pub user_data_size : ℕ
  pub cache_size : ℕ

abbrev pub no_details : Details
no_details = record {
  title = none;
  developer = none;
  description = none;
  mini_icon = none;
  is_floss = false;
  light_accent_color = none;
  dark_accent_color = none;
  is_flathub = false;
  is_verified = false;
  search_tokens = none;
  installed_size = 0;
  n_addons = 0;
  donation_url = none;
  categories = no_categories;
  content_age_rating = 0;
}

-- bz_entry_group_init; g_object_new zeroes the rest.
unfoldable pub new_group : EntryGroup
new_group = record {
  unique_ids = [];
  installed_versions = [];
  state_flags = [];
  id = none;
  eol = none;
  details = no_details;
  addon_group_ids = none;
  max_usefulness = negsuc 0;
  counters = no_counters;
  read_only = false;
  searchable = false;
  is_addon = false;
  user_data_size = 0;
  cache_size = 0;
}

-- gtk_string_list_find: `none` is G_MAXUINT.
unfoldable pub find_string : Text → List Text → Option ℕ
find_string s [] = none
find_string s (t ∷ ts) =
    let rest = find_string s ts in
    if text_eq t s then some 0 else elim rest [ none ↦ none | some i ↦ some (suc i) ]

-- gtk_string_list_remove, which leaves the list as it is out of its range.
abbrev pub remove_at {ℓ} : {A : Type ℓ} → List A → ℕ → List A
remove_at [] i = []
remove_at (x ∷ xs) zero = xs
remove_at (x ∷ xs) (suc i) = x ∷ remove_at xs i

-- A write at an index; out of range it changes nothing.
abbrev pub set {ℓ} : {A : Type ℓ} → List A → ℕ → A → List A
set [] i v = []
set (x ∷ xs) zero v = v ∷ xs
set (x ∷ xs) (suc i) v = x ∷ set xs i v

-- `s != NULL ? s : ""`.
abbrev pub or_empty : Option Text → Text
or_empty none = []
or_empty (some s) = s

-- bz_entry_group_append_addon_group_id.
abbrev append_new : Text → List Text → Option ℕ → List Text
append_new s ids (some i) = ids
append_new s ids none = ids ++ s ∷ []

abbrev pub ids_of : Option (List Text) → List Text
ids_of none = []
ids_of (some ids) = ids

unfoldable pub append_addon_group_id : EntryGroup → Text → EntryGroup
append_addon_group_id g s = record g {
  addon_group_ids =
      some (append_new s (ids_of g.addon_group_ids) (find_string s (ids_of g.addon_group_ids)));
}

-- bz_entry_group_get_installable and bz_entry_group_get_removable; the other counters are read as
-- they are.
unfoldable pub get_installable : EntryGroup → ℤ
get_installable g = if g.read_only then pos 0 else g.counters.n_installable

unfoldable pub get_removable : EntryGroup → ℤ
get_removable g = if g.read_only then pos 0 else g.counters.n_removable
