-- ===== src/Groups/Add.antt =====
-- src/bz-entry-group.c: bz_entry_group_add.
use spacedbazaar.Common.{
  ℕ, Bool, true, false, not, ◌&&◌, ◌||◌, List, [], ◌∷◌, ◌++◌, Option, none, some, Text, strcmp0_eq,
  ℤ, inc, dec, le_int, if◌then◌else◌, ◌==◌, get_elem?,
}
use spacedbazaar.Categories.Table.{Category, CategoryFlags, name_flag_map}
use spacedbazaar.Groups.State.{
  StateFlags, no_state, Counters, Details, EntryGroup, find_string, remove_at, set, or_empty,
}
use spacedbazaar.Groups.Usefulness.{BzEntry, calc_usefulness}

-- `if (x != NULL) self->x = x`, and the same where self->x is NULL only.
abbrev or_keep {ℓ} : {A : Type ℓ} → Option A → Option A → Option A
or_keep none old = old
or_keep (some x) old = some x

abbrev fill_in {ℓ} : {A : Type ℓ} → Option A → Option A → Option A
fill_in x none = x
fill_in x (some old) = some old

abbrev any_category : List (Text × Category) → CategoryFlags → Bool
any_category [] flags = false
any_category ((name, c) ∷ rows) flags = flags c || any_category rows flags

abbrev or_age : Option ℕ → ℕ → ℕ
or_age none old = old
or_age (some age) old = age

-- What only an entry that is no addon shows.
unfoldable pub replace_own : BzEntry → Details → Details
replace_own e d = if e.is_addon then d else record d {
  developer = or_keep e.developer d.developer;
  mini_icon = or_keep e.mini_icon d.mini_icon;
  search_tokens = or_keep e.search_tokens d.search_tokens;
  light_accent_color = or_keep e.light_accent_color d.light_accent_color;
  dark_accent_color = or_keep e.dark_accent_color d.dark_accent_color;
  n_addons = e.n_addons;
  donation_url = or_keep e.donation_url d.donation_url;
  categories =
      if any_category name_flag_map e.category_flags then e.category_flags else d.categories;
  content_age_rating = or_age e.minimum_age d.content_age_rating;
}

unfoldable pub replace_details : BzEntry → Details → Details
replace_details e d = replace_own e (record d {
  title = or_keep e.title d.title;
  description = or_keep e.description d.description;
  installed_size = e.installed_size;
  is_flathub = e.is_flathub;
  is_floss = e.is_foss;
  is_verified = e.is_addon || e.is_verified;
})

unfoldable pub fill_own : BzEntry → Details → Details
fill_own e d = if e.is_addon then d else record d {
  developer = fill_in e.developer d.developer;
  mini_icon = fill_in e.mini_icon d.mini_icon;
  search_tokens = fill_in e.search_tokens d.search_tokens;
  light_accent_color = fill_in e.light_accent_color d.light_accent_color;
  dark_accent_color = fill_in e.dark_accent_color d.dark_accent_color;
  donation_url = fill_in e.donation_url d.donation_url;
}

unfoldable pub fill_details : BzEntry → Details → Details
fill_details e d = fill_own e (record d {
  title = fill_in e.title d.title;
  description = fill_in e.description d.description;
  installed_size = if d.installed_size == 0 then e.installed_size else d.installed_size;
})

-- The first statements: the kind, the id and whether it is the store's own, the end of life.
unfoldable pub name_group : Option Text → BzEntry → EntryGroup → EntryGroup
name_group app_id e g = elim g.id [
  | some _ ↦ g
  | none ↦ record g { id = e.id; read_only = strcmp0_eq e.id app_id }
]

abbrev runtime_eol : Option BzEntry → Option Text
runtime_eol none = none
runtime_eol (some r) = r.eol

unfoldable pub put_eol : Bool → BzEntry → Option BzEntry → EntryGroup → EntryGroup
put_eol ignore_eol e runtime g =
    if ignore_eol then g else record g { eol = or_keep (or_keep e.eol (runtime_eol runtime)) g.eol }

abbrev pub mark_addon : BzEntry → EntryGroup → EntryGroup
mark_addon e g = if e.is_addon then record g { is_addon = true } else g

abbrev pub removed {ℓ} : {A : Type ℓ} → Option ℕ → List A → List A
removed none xs = xs
removed (some i) xs = remove_at xs i

abbrev pub appended {ℓ} : {A : Type ℓ} → Option ℕ → List A → A → List A
appended none xs x = xs ++ x ∷ []
appended (some i) xs x = xs

-- The entry is at least as useful as those before it: it moves to the front.
unfoldable pub add_front : BzEntry → Option ℕ → EntryGroup → EntryGroup
add_front e existing g = record g {
  unique_ids = e.unique_id ∷ removed existing g.unique_ids;
  installed_versions = or_empty e.installed_version ∷ removed existing g.installed_versions;
  details = replace_details e g.details;
  max_usefulness = calc_usefulness e;
}

unfoldable pub add_back : BzEntry → Option ℕ → EntryGroup → EntryGroup
add_back e existing g = record g {
  unique_ids = appended existing g.unique_ids e.unique_id;
  installed_versions = appended existing g.installed_versions (or_empty e.installed_version);
  details = fill_details e g.details;
}

-- `if (previous_state_flags & …) self->…--`.
abbrev pub dec_if : Bool → ℤ → ℤ
dec_if b n = if b then dec n else n

unfoldable pub revert : StateFlags → Counters → Counters
revert f c = record c {
  n_installable = dec_if f.installable c.n_installable;
  n_installable_available = dec_if f.installable_available c.n_installable_available;
  n_updatable = dec_if f.updatable c.n_updatable;
  n_updatable_available = dec_if f.updatable_available c.n_updatable_available;
  n_removable = dec_if f.removable c.n_removable;
  n_removable_available = dec_if f.removable_available c.n_removable_available;
}

-- The state of an entry, and the counters with it.
unfoldable pub count_entry : BzEntry → Counters → Counters × StateFlags
count_entry e c =
    if e.is_installed
    then (if e.is_holding
        then (record c { n_removable = inc c.n_removable }, record no_state { removable = true })
        else (
          record c {
            n_removable = inc c.n_removable;
            n_removable_available = inc c.n_removable_available;
          },
          record no_state { removable = true; removable_available = true },
        ))
    else if e.is_reinstallable
    then (if e.is_holding
        then (
          record c { n_installable = inc c.n_installable },
          record no_state { installable = true },
        )
        else (
          record c {
            n_installable = inc c.n_installable;
            n_installable_available = inc c.n_installable_available;
          },
          record no_state { installable = true; installable_available = true },
        ))
    else (c, no_state)

-- The state's word at the place that the list had before the entry moved; `none` is a read out of
-- the array's bounds.
unfoldable pub put_state : BzEntry → Option ℕ → EntryGroup → Option EntryGroup
put_state e none g =
    let (c, f) = count_entry e g.counters in
    some (record g { counters = c; state_flags = g.state_flags ++ f ∷ [] })
put_state e (some i) g = elim (get_elem? g.state_flags i) [
  | none ↦ none
  | some previous ↦
      let (c, f) = count_entry e (revert previous g.counters) in
      some (record g { counters = c; state_flags = set g.state_flags i f })
]

abbrev pub add_entry : BzEntry → Option ℕ → EntryGroup → EntryGroup
add_entry e existing g =
    if le_int g.max_usefulness (calc_usefulness e)
    then add_front e existing g
    else add_back e existing g

abbrev pub mark_searchable : BzEntry → EntryGroup → EntryGroup
mark_searchable e g =
    if not e.is_addon && e.is_searchable then record g { searchable = true } else g

unfoldable pub prepare : Option Text → Bool → BzEntry → Option BzEntry → EntryGroup → EntryGroup
prepare app_id ignore_eol e runtime g =
    put_eol ignore_eol e runtime (name_group app_id e (mark_addon e g))

abbrev pub after_state : BzEntry → Option EntryGroup → Option EntryGroup
after_state e none = none
after_state e (some g) = some (mark_searchable e g)

-- `app_id` is the store's own id.
unfoldable pub bz_entry_group_add :
    Option Text → EntryGroup → BzEntry → Option BzEntry → Bool → Option EntryGroup
bz_entry_group_add app_id g e runtime ignore_eol =
    let g₁ = prepare app_id ignore_eol e runtime g in
    let existing = find_string e.unique_id g₁.unique_ids in
    after_state e (put_state e existing (add_entry e existing g₁))
