-- ===== src/Groups/RoundTrip.antt =====
-- src/bz-entry-group.c: what bz_entry_group_deserialize gives back of what bz_entry_group_serialize
-- wrote.
use mathlib.Core.List.{append_assoc, append-nil}
use spacedbazaar.Common.{
  arith, ℕ, true, List, [], ◌∷◌, ◌++◌, Option, none, some, Text, codes, text_eq, ◌≡◌, refl, ap, ◌∙◌,
  sym, length,
}
use spacedbazaar.Groups.State.{
  StateFlags, EntryGroup, new_group, or_empty, ids_of, find_string, append_addon_group_id,
}
use spacedbazaar.Groups.Saved.{
  strings, words, icon_variant, Entries, save_texts, save_plain, save_rows, save_addon_ids,
  save_icon, append_addon_ids, version_rows, bz_entry_group_serialize, bz_entry_group_deserialize,
  set_read_only,
}
use spacedbazaar.Groups.SavedLists.{version_rows-all, state_rows-all, AreNew}
use spacedbazaar.Groups.SavedTexts.{with_lists, read, read_on, read_texts, read_plain_values}

-- A list of no ids is not written.
abbrev pub kept_ids : Option (List Text) → Option (List Text)
kept_ids none = none
kept_ids (some []) = none
kept_ids (some (s ∷ ids)) = some (s ∷ ids)

module _ (serialize_icon : ℕ → Option ℕ) (deserialize_icon : ℕ → Option ℕ) where
  -- The icon of the variant of an icon, where there are both.
  abbrev pub returned_icon : Option ℕ → Option ℕ
  returned_icon none = none
  returned_icon (some i) = elim (serialize_icon i) [ none ↦ none | some v ↦ deserialize_icon v ]

  -- What comes back: the id and the title are there, if only empty, an empty list of addons is none,
  -- the group is read-only when it is the application's own, and the counters and sizes are new.
  abbrev pub restored : Text → EntryGroup → EntryGroup
  restored app g =
      record (with_lists g g.unique_ids g.installed_versions g.state_flags
        (kept_ids g.addon_group_ids) (returned_icon g.details.mini_icon)) {
          read_only = text_eq (or_empty g.id) app;
        }

  rows-read :
      (g : EntryGroup) (ids versions : List Text) (flags : List StateFlags)
      → length versions ≡ length ids
      → length flags ≡ length ids
      → (rows : Entries) × (save_rows ids versions flags ≡ some rows)
        × (read serialize_icon deserialize_icon rows (with_lists g [] [] [] none none)
            ≡ with_lists g ids versions flags none none)
  unfolding text_eq
  rows-read g [] [] [] v f = ([], refl, refl)
  rows-read g [] (x ∷ versions) flags v f = ground (arith, v)
  rows-read g [] [] (x ∷ flags) v f = ground (arith, f)
  rows-read g (s ∷ ids) versions flags v f =
      let versions' = version_rows versions (s ∷ ids) 0 in
      let entries : Entries =
        (codes "unique-ids", strings (s ∷ ids))
        ∷ (codes "installed-versions", strings versions')
        ∷ (codes "state-flags", words flags)
        ∷ [] in
      (
        entries,
        ap
            (λ o. elim o [
              | none ↦ none
              | some rows ↦ some (
                  (codes "unique-ids", strings (s ∷ ids))
                  ∷ (codes "installed-versions", strings versions')
                  ∷ (codes "state-flags", words rows)
                  ∷ [])
            ])
            (state_rows-all [] flags (s ∷ ids) 0 refl f),
        ap (λ vs. with_lists g (s ∷ ids) vs flags none none)
            (version_rows-all [] versions (s ∷ ids) 0 refl v),
      )

  append-one :
      (g : EntryGroup) (u v : List Text) (fl : List StateFlags) (pre : List Text) (s : Text)
      → find_string s pre ≡ none
      → append_addon_group_id (with_lists g u v fl (some pre) none) s
        ≡ with_lists g u v fl (some (pre ++ s ∷ [])) none
  unfolding append_addon_group_id
  append-one g u v fl pre s e = rw e

  append-new :
      (g : EntryGroup) (u v : List Text) (fl : List StateFlags) (pre ids : List Text)
      → AreNew pre ids
      → append_addon_ids (with_lists g u v fl (some pre) none) ids
        ≡ with_lists g u v fl (some (pre ++ ids)) none
  unfolding append_addon_group_id
  append-new g u v fl pre [] h = ap (λ l. with_lists g u v fl (some l) none) (sym (append-nil pre))
  append-new g u v fl pre (s ∷ ids) h =
      ap (λ g'. append_addon_ids g' ids) (append-one g u v fl pre s h.0)
      ∙ append-new g u v fl (pre ++ s ∷ []) ids h.1
      ∙ ap (λ l. with_lists g u v fl (some l) none) (append_assoc pre (s ∷ []) ids)

  addons-read :
      (g : EntryGroup) (u v : List Text) (fl : List StateFlags) (addons : Option (List Text))
      → AreNew [] (ids_of addons)
      → read serialize_icon deserialize_icon (save_addon_ids addons) (with_lists g u v fl none none)
        ≡ with_lists g u v fl (kept_ids addons) none
  unfolding text_eq append_addon_group_id find_string
  addons-read g u v fl none h = refl
  addons-read g u v fl (some []) h = refl
  addons-read g u v fl (some (s ∷ ids)) h = append-new g u v fl (s ∷ []) ids h.1

  icon-read :
      (g : EntryGroup) (u v : List Text) (fl : List StateFlags) (addons : Option (List Text))
      (icon : Option ℕ)
      → read serialize_icon deserialize_icon
          (save_icon serialize_icon deserialize_icon icon)
          (with_lists g u v fl addons none)
        ≡ with_lists g u v fl addons (returned_icon icon)
  unfolding text_eq
  icon-read g u v fl addons none = refl
  icon-read g u v fl addons (some i) =
      elim (serialize_icon i)
        as (λ o.
          read serialize_icon deserialize_icon
            (elim o [ none ↦ [] | some w ↦ (codes "mini-icon", icon_variant w) ∷ [] ])
            (with_lists g u v fl addons none)
          ≡ with_lists g u v fl addons (elim o [ none ↦ none | some w ↦ deserialize_icon w ])) [
            | none ↦ refl
            | some w ↦ refl
          ]

  -- For a group with a version and a state for each of its ids, and no addon group twice: it can be
  -- written, and a new group that reads what was written is the same group, but that an id or a title
  -- that is missing is empty, an empty list of addon groups is none, the icon is the one that comes
  -- back of its variant, and none where it has no variant or the variant gives none, the counters and
  -- the two sizes are those of a new group, and the group is read-only exactly when its id is the
  -- application's.
  pub bz_entry_group_deserialize-serialize :
      (app : Text) (g : EntryGroup)
      → length g.installed_versions ≡ length g.unique_ids
      → length g.state_flags ≡ length g.unique_ids
      → AreNew [] (ids_of g.addon_group_ids)
      → (es : Entries) × (bz_entry_group_serialize serialize_icon deserialize_icon g ≡ some es)
        × (bz_entry_group_deserialize serialize_icon deserialize_icon app new_group es
            ≡ (restored app g, true))
  unfolding bz_entry_group_serialize bz_entry_group_deserialize
  bz_entry_group_deserialize-serialize app g versions flags fresh =
      let rows = rows-read g g.unique_ids g.installed_versions g.state_flags versions flags in
      let tail =
        save_addon_ids g.addon_group_ids
        ++ save_icon serialize_icon deserialize_icon g.details.mini_icon in
      let addons = kept_ids g.addon_group_ids in
      let done : read serialize_icon deserialize_icon
            (save_texts g ++ (save_plain g ++ (rows.0 ++ tail))) new_group
          ≡ with_lists g g.unique_ids g.installed_versions g.state_flags addons
              (returned_icon g.details.mini_icon) =
        read_on serialize_icon deserialize_icon (save_texts g) (save_plain g ++ (rows.0 ++ tail)) _
          _ (read_texts serialize_icon deserialize_icon g)
        ∙ read_on serialize_icon deserialize_icon (save_plain g) (rows.0 ++ tail) _ _
            (read_plain_values serialize_icon deserialize_icon g)
        ∙ read_on serialize_icon deserialize_icon rows.0 tail _ _ rows.2
        ∙ read_on serialize_icon deserialize_icon (save_addon_ids g.addon_group_ids)
            (save_icon serialize_icon deserialize_icon g.details.mini_icon) _ _
            (addons-read g g.unique_ids g.installed_versions g.state_flags g.addon_group_ids fresh)
        ∙ icon-read g g.unique_ids g.installed_versions g.state_flags addons g.details.mini_icon in
      (
        save_texts g ++ (save_plain g ++ (rows.0 ++ tail)),
        ap
            (λ o. elim o [
              | none ↦ none
              | some r ↦ some (save_texts g ++ (save_plain g ++ (r ++ tail)))
            ])
            rows.1,
        ap (λ g'. set_read_only serialize_icon deserialize_icon app g' g'.id) done,
      )
