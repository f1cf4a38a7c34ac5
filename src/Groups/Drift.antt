-- ===== src/Groups/Drift.antt =====
-- src/bz-entry-group.c: where bz_entry_group_add puts a new entry and where its word.
use spacedbazaar.Common.{
  Bool, true, false, not, ◌&&◌, List, [], ◌∷◌, ◌++◌, Option, none, some, Text, ◌≡◌, refl, sym, ap,
  ◌∙◌, inl, inr, Bool-cases, Option-cases, if◌then◌else◌, le_int, subst, ℤ,
}
use spacedbazaar.Groups.State.{StateFlags, EntryGroup, find_string}
use spacedbazaar.Groups.Usefulness.{BzEntry, calc_usefulness}
use spacedbazaar.Groups.Add.{
  prepare, mark_addon, name_group, put_eol, add_front, add_back, add_entry, put_state, after_state,
  bz_entry_group_add,
}
use spacedbazaar.Groups.Living.{living_entry, count_entry-living}

-- What the choice of the place reads.
abbrev place_of : EntryGroup → List Text × List StateFlags × ℤ
place_of g = (g.unique_ids, g.state_flags, g.max_usefulness)

mark_addon-place_of : (e : BzEntry) (g : EntryGroup) → place_of (mark_addon e g) ≡ place_of g
mark_addon-place_of e g = elim (Bool-cases e.is_addon) [
  | inl on ↦ rw on refl
  | inr off ↦ rw off refl
]

name_group-place_of :
    (app_id : Option Text) (e : BzEntry) (g : EntryGroup)
    → place_of (name_group app_id e g) ≡ place_of g
unfolding name_group
name_group-place_of app_id e g = elim (Option-cases g.id) [
  | inl anonymous ↦ rw anonymous refl
  | inr (s, named) ↦ rw named refl
]

put_eol-place_of :
    (ignore_eol : Bool) (e : BzEntry) (runtime : Option BzEntry) (g : EntryGroup)
    → place_of (put_eol ignore_eol e runtime g) ≡ place_of g
unfolding put_eol
put_eol-place_of true e runtime g = refl
put_eol-place_of false e runtime g = refl

prepare-place_of :
    (app_id : Option Text) (ignore_eol : Bool) (e : BzEntry) (runtime : Option BzEntry)
    (g : EntryGroup)
    → place_of (prepare app_id ignore_eol e runtime g) ≡ place_of g
unfolding prepare
prepare-place_of app_id ignore_eol e runtime g =
    put_eol-place_of ignore_eol e runtime (name_group app_id e (mark_addon e g))
    ∙ name_group-place_of app_id e (mark_addon e g)
    ∙ mark_addon-place_of e g

-- The ids after a new entry comes to them.
abbrev pub ids_with : BzEntry → List Text → ℤ → List Text
ids_with e ids most =
    if le_int most (calc_usefulness e) then e.unique_id ∷ ids else ids ++ e.unique_id ∷ []

-- The new entry's id stands among the ids by its usefulness; its word is the last one.
abbrev pub Placed : BzEntry → List Text × List StateFlags × ℤ → Option EntryGroup → Type 0
Placed e (ids, words, most) o =
    (g : EntryGroup) × (o ≡ some g)
    × (g.unique_ids ≡ ids_with e ids most)
    × (g.state_flags ≡ words ++ living_entry e ∷ [])

after_state-Placed :
    (e : BzEntry) (place : List Text × List StateFlags × ℤ) (o : Option EntryGroup)
    → Placed e place o
    → Placed e place (after_state e o)
after_state-Placed e (ids, words, most) o (g, at, i, w) =
    elim (Bool-cases (not e.is_addon && e.is_searchable)) [
      | inl on ↦ (record g { searchable = true }, rw (at, on) refl, i, w)
      | inr off ↦ (g, rw (at, off) refl, i, w)
    ]

put_state-Placed :
    (e : BzEntry) (g : EntryGroup) → Placed e (place_of g) (put_state e none (add_entry e none g))
unfolding put_state add_front add_back
put_state-Placed e g = elim (Bool-cases (le_int g.max_usefulness (calc_usefulness e))) [
  | inl front ↦
      rw front (_, refl, refl, ap (λ f. g.state_flags ++ f ∷ []) (count_entry-living e g.counters))
  | inr back ↦
      rw back (_, refl, refl, ap (λ f. g.state_flags ++ f ∷ []) (count_entry-living e g.counters))
]

-- An entry whose unique id the group does not list yet: the id goes to the front of the ids if the
-- entry is at least as useful as the most useful one so far and to their end otherwise, but its word,
-- which says whether it can be installed or removed, always goes to the end of the words.
pub bz_entry_group_add-Placed :
    (app_id : Option Text) (g : EntryGroup) (e : BzEntry) (runtime : Option BzEntry)
    (ignore_eol : Bool)
    → find_string e.unique_id g.unique_ids ≡ none
    → (g' : EntryGroup) × (bz_entry_group_add app_id g e runtime ignore_eol ≡ some g')
      × (g'.unique_ids ≡ ids_with e g.unique_ids g.max_usefulness)
      × (g'.state_flags ≡ g.state_flags ++ living_entry e ∷ [])
unfolding bz_entry_group_add
bz_entry_group_add-Placed app_id g e runtime ignore_eol absent =
    let g₁ = prepare app_id ignore_eol e runtime g in
    let same : place_of g₁ ≡ place_of g = prepare-place_of app_id ignore_eol e runtime g in
    let gone : find_string e.unique_id g₁.unique_ids ≡ none =
      ap (λ p. find_string e.unique_id p.0) same ∙ absent in
    let placed : Placed e (place_of g₁) (
        put_state e (find_string e.unique_id g₁.unique_ids)
          (add_entry e (find_string e.unique_id g₁.unique_ids) g₁)) =
      subst (λ x. Placed e (place_of g₁) (put_state e x (add_entry e x g₁))) (sym gone)
        (put_state-Placed e g₁) in
    subst (λ p. Placed e p (bz_entry_group_add app_id g e runtime ignore_eol)) same
      (after_state-Placed e (place_of g₁) _ placed)
