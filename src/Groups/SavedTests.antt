-- ===== src/Groups/SavedTests.antt =====
-- src/bz-entry-group.c: the round trip of a concrete group.
use spacedbazaar.Common.{true, [], ◌∷◌, some, none, codes, ◌≡◌, refl}
use spacedbazaar.Groups.State.{
  EntryGroup, no_state, no_details, no_counters, new_group, find_string,
}
use spacedbazaar.Groups.Saved.{Entries, bz_entry_group_serialize, bz_entry_group_deserialize}
use spacedbazaar.Groups.RoundTrip.{restored, bz_entry_group_deserialize-serialize}
use spacedbazaar.Common.{false, pos, text_eq}

abbrev one_entry : EntryGroup
one_entry = record {
  unique_ids = codes "a" ∷ [];
  installed_versions = codes "1" ∷ [];
  state_flags = no_state ∷ [];
  id = some (codes "org.a");
  eol = none;
  details = record no_details { title = some (codes "A"); mini_icon = some 4 };
  addon_group_ids = some (codes "x" ∷ codes "y" ∷ []);
  max_usefulness = pos 3;
  counters = no_counters;
  read_only = true;
  searchable = true;
  is_addon = false;
  user_data_size = 7;
  cache_size = 8;
}

bz_entry_group_deserialize-serialize_example :
    (es : Entries) × (bz_entry_group_serialize some some one_entry ≡ some es)
    × (bz_entry_group_deserialize some some (codes "org.b") new_group es
        ≡ (restored some some (codes "org.b") one_entry, true))
unfolding find_string text_eq
bz_entry_group_deserialize-serialize_example =
    bz_entry_group_deserialize-serialize some some (codes "org.b") one_entry refl refl
      (refl, (refl, tt))
