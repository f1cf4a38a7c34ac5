-- ===== src/Groups/SavedTexts.antt =====
-- src/bz-entry-group.c: the texts and the plain values that bz_entry_group_serialize writes, read back.
use spacedbazaar.Common.{
  ℕ, false, List, [], ◌∷◌, ◌++◌, Option, none, some, Text, codes, text_eq, ◌≡◌, refl, ap, ◌∙◌,
  negsuc,
}
use spacedbazaar.Categories.Table.{no_categories}
use spacedbazaar.Groups.State.{StateFlags, no_counters, EntryGroup, new_group, or_empty}
use spacedbazaar.Groups.Saved.{
  Entries, save_text, save_texts, save_plain, read_dict, read_dict_entry,
}

-- A new group with these texts.
abbrev pub with_texts :
    Text
    → Text
    → Option Text
    → Option Text
    → Option Text
    → Option Text
    → Option Text
    → Option Text
    → Option Text
    → EntryGroup
with_texts id title developer description tokens eol light dark donation = record {
  unique_ids = [];
  installed_versions = [];
  state_flags = [];
  id = some id;
  eol = eol;
  details = record {
    title = some title;
    developer = developer;
    description = description;
    mini_icon = none;
    is_floss = false;
    light_accent_color = light;
    dark_accent_color = dark;
    is_flathub = false;
    is_verified = false;
    search_tokens = tokens;
    installed_size = 0;
    n_addons = 0;
    donation_url = donation;
    categories = no_categories;
    content_age_rating = 0;
  };
  addon_group_ids = none;
  max_usefulness = negsuc 0;
  counters = no_counters;
  read_only = false;
  searchable = false;
  is_addon = false;
  user_data_size = 0;
  cache_size = 0;
}

-- The group with what is not written left out, and with these lists and icon.
abbrev pub with_lists :
    EntryGroup
    → List Text
    → List Text
    → List StateFlags
    → Option (List Text)
    → Option ℕ
    → EntryGroup
with_lists g ids versions flags addons icon = record {
  unique_ids = ids;
  installed_versions = versions;
  state_flags = flags;
  id = some (or_empty g.id);
  eol = g.eol;
  details = record g.details { title = some (or_empty g.details.title); mini_icon = icon };
  addon_group_ids = addons;
  max_usefulness = g.max_usefulness;
  counters = no_counters;
  read_only = g.read_only;
  searchable = g.searchable;
  is_addon = g.is_addon;
  user_data_size = 0;
  cache_size = 0;
}

module _ (serialize_icon : ℕ → Option ℕ) (deserialize_icon : ℕ → Option ℕ) where
  abbrev pub read : Entries → EntryGroup → EntryGroup
  read es g = read_dict serialize_icon deserialize_icon es g

  pub read_on :
      (xs ys : Entries) (g g' : EntryGroup) → read xs g ≡ g' → read (xs ++ ys) g ≡ read ys g'
  read_on [] ys g g' e = ap (read ys) e
  read_on ((key, v) ∷ xs) ys g g' e =
      read_on xs ys (read_dict_entry serialize_icon deserialize_icon key v g) g' e

  read_developer :
      (i t : Text) (o : Option Text)
      → read (save_text (codes "developer") o) (with_texts i t none none none none none none none)
        ≡ with_texts i t o none none none none none none
  unfolding text_eq
  read_developer i t none = refl
  read_developer i t (some s) = refl

  read_description :
      (i t : Text) (dev : Option Text) (o : Option Text)
      → read (save_text (codes "description") o) (with_texts i t dev none none none none none none)
        ≡ with_texts i t dev o none none none none none
  unfolding text_eq
  read_description i t dev none = refl
  read_description i t dev (some s) = refl

  read_tokens :
      (i t : Text) (dev des : Option Text) (o : Option Text)
      → read (save_text (codes "search-tokens") o) (with_texts i t dev des none none none none none)
        ≡ with_texts i t dev des o none none none none
  unfolding text_eq
  read_tokens i t dev des none = refl
  read_tokens i t dev des (some s) = refl

  read_eol :
      (i t : Text) (dev des tok : Option Text) (o : Option Text)
      → read (save_text (codes "eol") o) (with_texts i t dev des tok none none none none)
        ≡ with_texts i t dev des tok o none none none
  unfolding text_eq
  read_eol i t dev des tok none = refl
  read_eol i t dev des tok (some s) = refl

  read_light :
      (i t : Text) (dev des tok eol : Option Text) (o : Option Text)
      → read
          (save_text (codes "light-accent-color") o)
          (with_texts i t dev des tok eol none none none)
        ≡ with_texts i t dev des tok eol o none none
  unfolding text_eq
  read_light i t dev des tok eol none = refl
  read_light i t dev des tok eol (some s) = refl

  read_dark :
      (i t : Text) (dev des tok eol lig : Option Text) (o : Option Text)
      → read
          (save_text (codes "dark-accent-color") o)
          (with_texts i t dev des tok eol lig none none)
        ≡ with_texts i t dev des tok eol lig o none
  unfolding text_eq
  read_dark i t dev des tok eol lig none = refl
  read_dark i t dev des tok eol lig (some s) = refl

  read_donation :
      (i t : Text) (dev des tok eol lig dar : Option Text) (o : Option Text)
      → read (save_text (codes "donation-url") o) (with_texts i t dev des tok eol lig dar none)
        ≡ with_texts i t dev des tok eol lig dar o
  unfolding text_eq
  read_donation i t dev des tok eol lig dar none = refl
  read_donation i t dev des tok eol lig dar (some s) = refl

  pub read_texts :
      (g : EntryGroup)
      → read (save_texts g) new_group
        ≡ with_texts
            (or_empty g.id)
            (or_empty g.details.title)
            g.details.developer
            g.details.description
            g.details.search_tokens
            g.eol
            g.details.light_accent_color
            g.details.dark_accent_color
            g.details.donation_url
  unfolding new_group text_eq
  read_texts g =
      let i = or_empty g.id in
      let t = or_empty g.details.title in
      let d = g.details in
      read_on (save_text (codes "developer") d.developer) _ _ _ (read_developer i t d.developer)
      ∙ read_on (save_text (codes "description") d.description) _ _ _
          (read_description i t d.developer d.description)
      ∙ read_on (save_text (codes "search-tokens") d.search_tokens) _ _ _
          (read_tokens i t d.developer d.description d.search_tokens)
      ∙ read_on (save_text (codes "eol") g.eol) _ _ _
          (read_eol i t d.developer d.description d.search_tokens g.eol)
      ∙ read_on (save_text (codes "light-accent-color") d.light_accent_color) _ _ _
          (read_light i t d.developer d.description d.search_tokens g.eol d.light_accent_color)
      ∙ read_on (save_text (codes "dark-accent-color") d.dark_accent_color) _ _ _ (
          read_dark i t d.developer d.description d.search_tokens g.eol d.light_accent_color
            d.dark_accent_color)
      ∙ read_donation i t d.developer d.description d.search_tokens g.eol d.light_accent_color
          d.dark_accent_color d.donation_url

  pub read_plain_values :
      (g : EntryGroup)
      → read (save_plain g) (
          with_texts
            (or_empty g.id)
            (or_empty g.details.title)
            g.details.developer
            g.details.description
            g.details.search_tokens
            g.eol
            g.details.light_accent_color
            g.details.dark_accent_color
            g.details.donation_url)
        ≡ with_lists g [] [] [] none none
  unfolding text_eq
  read_plain_values g = refl
