-- ===== src/Groups/Tests.antt =====
-- src/bz-entry-group.c: the theorems at concrete entries.
use spacedbazaar.Common.{
  Bool, true, false, List, [], ◌∷◌, Option, none, some, Text, codes, ◌≡◌, refl, text_eq,
  if◌then◌else◌, strcmp0_eq, ℤ, pos, le_int, dec, inc,
}
use spacedbazaar.Categories.Table.{no_categories}
use spacedbazaar.Groups.State.{
  EntryGroup, new_group, find_string, set, get_installable, get_removable,
}
use spacedbazaar.Groups.Usefulness.{BzEntry, calc_usefulness}
use spacedbazaar.Groups.Add.{
  bz_entry_group_add, replace_own, replace_details, name_group, put_eol, prepare, add_front,
  add_back, revert, count_entry, put_state,
}
use spacedbazaar.Groups.Notify.{
  retally, tally_installed, put_removable, drop_installable, put_removable_available,
  drop_installable_available, installed_changed,
}
use spacedbazaar.Groups.Reconcile.{InstalledSet, reconcile_with_installed_set}
use spacedbazaar.Groups.Counts.{IsCounted}
use spacedbazaar.Groups.Scanned.{reconciled, any_in, reconcile_with_installed_set-reconciled}
use spacedbazaar.Groups.Living.{holding_notify, notified, living_entry, notified-living}
use spacedbazaar.Groups.Drift.{ids_with, bz_entry_group_add-Placed}
use spacedbazaar.Groups.History.{
  Event, add, notify_installed, notify_holding, reconcile, addon_group, handle, handle_all,
  handle_all-IsCounted,
}

-- An entry by its unique id, whether it is on Flathub, installed and held.
abbrev entry : Text → Bool → Bool → Bool → BzEntry
entry uid flathub installed holding = record {
  unique_id = uid;
  id = some (codes "org.app.App");
  is_addon = false;
  installed_version = none;
  is_installed = installed;
  is_holding = holding;
  is_reinstallable = true;
  is_searchable = true;
  eol = none;
  title = some (codes "App");
  description = none;
  developer = none;
  mini_icon = none;
  search_tokens = none;
  is_foss = true;
  is_flathub = flathub;
  is_verified = false;
  light_accent_color = none;
  dark_accent_color = none;
  installed_size = 10;
  n_addons = 0;
  donation_url = none;
  category_flags = no_categories;
  minimum_age = none;
  remote_repo_name = some (codes "repo");
  size = 20;
  has_long_description = false;
  has_url = false;
  has_icon_paintable = false;
  has_remote_repo_icon = false;
  has_metadata_license = false;
  has_project_license = false;
  has_project_group = false;
  has_developer_id = false;
  has_screenshot_paintables = false;
  has_share_urls = false;
}

abbrev beta : Text
beta = codes "user-beta"

abbrev stable : Text
stable = codes "system-stable"

-- The group of the beta alone.
abbrev beta_group : EntryGroup
beta_group = record new_group {
  unique_ids = beta ∷ [];
  installed_versions = [] ∷ [];
  state_flags = living_entry (entry beta false true false) ∷ [];
  counters = record new_group.counters { n_removable = pos 1; n_removable_available = pos 1 };
  max_usefulness = pos 7;
}

abbrev only_stable : InstalledSet
only_stable uid = if text_eq uid stable then some (some (codes "1.2")) else none

abbrev some_events : List Event
some_events =
    add (entry beta false true false) none false
    ∷ add (entry stable true false false) none true
    ∷ notify_installed (entry stable true true false)
    ∷ notify_holding (entry beta false true true)
    ∷ reconcile only_stable
    ∷ addon_group stable
    ∷ []

handle_all-IsCounted_example :
    (g : EntryGroup) × (handle_all (some (codes "org.store")) (some new_group) some_events ≡ some g)
    × IsCounted g
handle_all-IsCounted_example = handle_all-IsCounted (some (codes "org.store")) some_events

notified-living_example :
    (g' : EntryGroup) × (notified holding_notify beta_group (entry beta false true true) ≡ some g')
    × (g'.state_flags ≡ set beta_group.state_flags 0 (living_entry (entry beta false true true)))
    × (g'.unique_ids ≡ beta_group.unique_ids)
unfolding find_string new_group text_eq
notified-living_example =
    notified-living holding_notify beta_group (entry beta false true true) 0 refl refl

bz_entry_group_add-Placed_example :
    (g' : EntryGroup) × (bz_entry_group_add none beta_group
        (entry stable true false false)
        none
        false
      ≡ some g')
    × (g'.unique_ids ≡ ids_with (entry stable true false false) (beta ∷ []) (pos 7))
    × (g'.state_flags
        ≡ living_entry (entry beta false true false)
          ∷ living_entry (entry stable true false false)
          ∷ [])
unfolding find_string new_group text_eq
bz_entry_group_add-Placed_example =
    bz_entry_group_add-Placed none beta_group (entry stable true false false) none false refl

reconcile_with_installed_set-reconciled_example :
    reconcile_with_installed_set beta_group only_stable
    ≡ some (reconciled beta_group only_stable, any_in only_stable (beta ∷ []))
unfolding new_group
reconcile_with_installed_set-reconciled_example =
    reconcile_with_installed_set-reconciled beta_group only_stable refl refl

abbrev counts_of : Option EntryGroup → Option (ℤ × ℤ)
counts_of none = none
counts_of (some g) = some (get_installable g, get_removable g)

-- The beta is installed, the stable branch is added and then installed too: the group still counts
-- one installable and one removable entry, for the handler looked at the beta's word.
drifted :
    counts_of (
      handle_all none (some new_group) (
        add (entry beta false true false) none false
        ∷ add (entry stable true false false) none false
        ∷ notify_installed (entry stable true true false)
        ∷ []))
    ≡ some (pos 1, pos 1)
unfolding handle new_group bz_entry_group_add prepare name_group put_eol find_string text_eq
    strcmp0_eq calc_usefulness le_int inc dec add_front add_back replace_own replace_details
    put_state count_entry revert installed_changed retally tally_installed put_removable
    drop_installable put_removable_available drop_installable_available get_installable
    get_removable
drifted = refl
